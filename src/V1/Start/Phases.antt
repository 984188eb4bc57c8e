-- ===== src/V1/Start/Phases.antt =====
-- In which phases the services of version 1 start (main.go).
use spike_broker.Prelude.{
  ◌≡◌, refl, sym, ap, ◌∙◌, Bool, true, false, List, [], ◌∷◌, ◌++◌, map, if◌then◌else◌, Text, Dict,
}
use spike_broker.Go.{Go, pure, continue, continue-eq, continue-continue, ◌>>=◌, ◌>>◌}
use spike_broker.V1.Start.{
  Service, RouteService, Collected, collect_one, collect, announce, process_dependencies,
  finish_start, run_each, is_chosen, start_others, start_services, services_type, remove,
}

module _ {W : Type 0} (route : RouteService W) (developer : Bool) where
  -- One service after the other is made, announced to the service `route`, and started.
  unfoldable pub start_each :
      (Text → Bool) → List (Go W (Service W)) → List (Service W) → Go W (List (Service W))
  start_each chosen [] done_so_far = pure done_so_far
  start_each chosen (srv ∷ srvs) done_so_far = srv >>= λ s.
      if chosen s.name
      then announce route developer s >> s.start >> start_each chosen srvs (done_so_far ++ (s ∷ []))
      else start_each chosen srvs done_so_far

  -- When all have started, the dependencies of each are processed; when all have, each is told; and
  -- then the service `route` serves.
  abbrev pub finish : List (Service W) → Go W (List (Service W))
  finish started =
      run_each (map process_dependencies started)
      >> run_each (map finish_start started)
      >> route.set_handler_func started
      >> route.base.all_services_started
      >> pure started

  unfoldable pub start_in_phases : List (Go W (Service W)) → List Text → Go W (List (Service W))
  start_in_phases srvs names =
      let types = services_type names [] in
      if is_chosen types developer route.base.name
      then announce route developer route.base
        >> route.base.start
        >> (start_each (is_chosen (remove route.base.name types) developer) srvs [] >>= finish)
      else start_each (is_chosen types developer) srvs [] >>= finish

  abbrev collected : List (Service W) → Collected W
  collected ss = record {
    started = ss;
    start_deps = map process_dependencies ss;
    start_all_deps = map finish_start ss;
  }

  map-snoc :
      {B : Type 0} (f : Service W → B) (ss : List (Service W)) (s : Service W)
      → map f (ss ++ (s ∷ [])) ≡ map f ss ++ (f s ∷ [])
  map-snoc f [] s = refl
  map-snoc f (x ∷ ss) s = ap (λ l. f x ∷ l) (map-snoc f ss s)

  collect_one-collected :
      (ss : List (Service W)) (s : Service W)
      → collect_one s (collected ss) ≡ collected (ss ++ (s ∷ []))
  unfolding collect_one
  collect_one-collected ss s = sym (
      ap
        (λ l. record {
          started = ss ++ (s ∷ []);
          start_deps = l;
          start_all_deps = map finish_start (ss ++ (s ∷ []));
        })
        (map-snoc process_dependencies ss s)
      ∙ ap
          (λ l. record {
            started = ss ++ (s ∷ []);
            start_deps = map process_dependencies ss ++ (process_dependencies s ∷ []);
            start_all_deps = l;
          })
          (map-snoc finish_start ss s))

  -- After the same first call, two calls that agree, the second of which goes on with `k`.
  if-continue :
      {A B : Type 0} (b : Bool) (first : Go W (Unit {0})) (f f' : Go W B) (g g' : Go W A)
      (k : A → Go W B)
      → ((v : W) → f v ≡ (g >>= k) v)
      → ((v : W) → f' v ≡ (g' >>= k) v)
      → (v : W) → (if b then first >> f else f') v ≡ ((if b then first >> g else g') >>= k) v
  if-continue true first f f' g g' k h h' v =
      continue-eq (λ _. f) (λ _. g >>= k) (λ _ u. h u) (first v)
      ∙ sym (continue-continue (λ _. g) k (first v))
  if-continue false first f f' g g' k h h' v = h' v

  collect-start_each :
      (types : Dict Text) (srvs : List (Go W (Service W))) (ss : List (Service W)) (w : W)
      → collect route developer types srvs (collected ss) w
        ≡ (start_each (is_chosen types developer) srvs ss >>= λ l. pure (collected l)) w
  unfolding collect start_each
  collect-start_each types [] ss w = refl
  collect-start_each types (srv ∷ srvs) ss w =
      let chosen = is_chosen types developer in
      let loop = collect route developer types srvs in
      let round = λ (s : Service W).
        if chosen s.name
        then announce route developer s >> s.start >> start_each chosen srvs (ss ++ (s ∷ []))
        else start_each chosen srvs ss in
      continue-eq
        (λ s.
          if chosen s.name
          then announce route developer s >> s.start >> loop (collect_one s (collected ss))
          else loop (collected ss))
        (λ s. round s >>= λ l. pure (collected l))
        (λ s u.
          if-continue (chosen s.name) (announce route developer s >> s.start)
            (loop (collect_one s (collected ss))) (loop (collected ss))
            (start_each chosen srvs (ss ++ (s ∷ []))) (start_each chosen srvs ss)
            (λ l. pure (collected l))
            (λ v.
              ap (λ a. loop a v) (collect_one-collected ss s)
              ∙ collect-start_each types srvs (ss ++ (s ∷ [])) v)
            (λ v. collect-start_each types srvs ss v) u)
        (srv w)
      ∙ sym (continue-continue round (λ l. pure (collected l)) (srv w))

  start_others-finish :
      (srvs : List (Go W (Service W))) (types : Dict Text) (w : W)
      → start_others route developer srvs types w
        ≡ (start_each (is_chosen types developer) srvs [] >>= finish) w
  start_others-finish srvs types w =
      let after = λ (a : Collected W).
        run_each a.start_deps
        >> run_each a.start_all_deps
        >> route.set_handler_func a.started
        >> route.base.all_services_started
        >> pure a.started in
      ap (continue after) (collect-start_each types srvs [] w)
      ∙ continue-continue (λ l. pure (collected l)) after
          (start_each (is_chosen types developer) srvs [] w)

  if-agree :
      {B : Type 0} (b : Bool) (first : Go W (Unit {0})) (f f' g g' : Go W B)
      → ((v : W) → f v ≡ g v)
      → ((v : W) → f' v ≡ g' v)
      → (v : W) → (if b then first >> f else f') v ≡ (if b then first >> g else g') v
  if-agree true first f f' g g' h h' v = continue-eq (λ _. f) (λ _. g) (λ _ u. h u) (first v)
  if-agree false first f f' g g' h h' v = h' v

  -- The services that this process runs start in phases: `route` first; each of the others in turn;
  -- then the dependencies of all of them; then each is told that all have started; and at last
  -- `route`, with the list of them, serves. A panic of one ends the whole.
  pub start_services-start_in_phases :
      (srvs : List (Go W (Service W))) (names : List Text) (w : W)
      → start_services route developer srvs names w ≡ start_in_phases srvs names w
  unfolding start_services start_in_phases
  start_services-start_in_phases srvs names w =
      let types = services_type names [] in
      let name = route.base.name in
      if-agree (is_chosen types developer name)
        (announce route developer route.base >> route.base.start)
        (start_others route developer srvs (remove name types))
        (start_others route developer srvs types)
        (start_each (is_chosen (remove name types) developer) srvs [] >>= finish)
        (start_each (is_chosen types developer) srvs [] >>= finish)
        (start_others-finish srvs (remove name types)) (start_others-finish srvs types) w
