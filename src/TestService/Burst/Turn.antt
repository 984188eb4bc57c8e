-- ===== src/TestService/Burst/Turn.antt =====
-- What a burst of tests has left to do, and whose turn it is (v2/pkg/spike/api-test-service-impl.go).
use mathlib.Core.Option.{some-injective}
use mathlib.Core.Path.{subst, subst⁻¹}
use spike_broker.Prelude.{
  ℕ, zero, suc, ◌+◌, ◌<◌, ◌≡◌, refl, sym, ap, Option, none, some, List, [], ◌∷◌, map, arith, All,
}
use spike_broker.Go.{Go}
use spike_broker.TestService.Burst.{
  Burst, Goroutine, waiting, passing, running, finished, gone, Result, Passes, pass_next, pass_last,
  pass_behind, Runs, run_here, run_behind, Quits, quit_here, quit_behind, Step, pass, run, quit,
  collect, Reachable, started, step, receive, start_burst,
}

-- The function has still to return.
abbrev pub open_rounds : Option Result → ℕ
open_rounds none = 1
open_rounds (some r) = 0

module _ {W : Type 0} where
  -- The steps that a goroutine has left.
  abbrev pub rounds : Goroutine W → ℕ
  rounds (waiting t) = 3
  rounds (passing t) = 2
  rounds (running t) = 1
  rounds (finished r) = 0
  rounds gone = 0

  abbrev pub work : List (Goroutine W) → ℕ
  work [] = 0
  work (g ∷ gs) = rounds g + work gs

  abbrev pub measure : Burst W → ℕ
  measure s = work s.goroutines + s.left + open_rounds s.returned

  Passes-work : {gs hs : List (Goroutine W)} → Passes gs hs → work hs < work gs
  Passes-work pass_next = omega arith
  Passes-work pass_last = omega arith
  Passes-work (pass_behind p) = let less = Passes-work p in omega (arith, less)

  Runs-work :
      {w v : W} {r : Result} {gs hs : List (Goroutine W)} → Runs w v r gs hs → work hs < work gs
  Runs-work (run_here e) = omega arith
  Runs-work (run_behind ran) = let less = Runs-work ran in omega (arith, less)

  Quits-work : {gs hs : List (Goroutine W)} → Quits gs hs → work hs < work gs
  Quits-work quit_here = omega arith
  Quits-work (quit_behind q) = let less = Quits-work q in omega (arith, less)

  receive-measure :
      (s t : Burst W) (n : ℕ) (rs : List Result)
      → s.returned ≡ none
      → s.left ≡ n
      → receive s n rs ≡ some t
      → measure t < work s.goroutines + n + 1
  unfolding receive
  receive-measure s t zero rs live left h =
      subst (λ (x : Burst W). measure x < work s.goroutines + 0 + 1) (some-injective _ _ h)
        (omega (arith, left))
  receive-measure s t (suc n) [] live left h = absurd (ground (arith, h))
  receive-measure s t (suc n) (none ∷ rs) live left h =
      subst (λ (x : Burst W). measure x < work s.goroutines + suc n + 1) (some-injective _ _ h)
        (rw live (omega arith))
  receive-measure s t (suc n) (some e ∷ rs) live left h =
      subst (λ (x : Burst W). measure x < work s.goroutines + suc n + 1) (some-injective _ _ h)
        (omega arith)

  pub Step-measure : {s t : Burst W} → Step s t → measure t < measure s
  Step-measure {s = s} (pass hs passes same) =
      let less = Passes-work passes in
      subst⁻¹ (λ (x : Burst W). measure x < measure s) same (omega (arith, less))
  Step-measure {s = s} (run hs r v runs same) =
      let less = Runs-work runs in
      subst⁻¹ (λ (x : Burst W). measure x < measure s) same (omega (arith, less))
  Step-measure {s = s} (quit hs r over quits same) =
      let less = Quits-work quits in
      subst⁻¹ (λ (x : Burst W). measure x < measure s) same (omega (arith, less))
  Step-measure {s = s} {t = t} (collect live received) =
      let less = receive-measure s t s.left s.chans live refl received in rw live less

  -- The turn is with one goroutine: those before it run their tests or have
  -- ended, and those behind it wait.
  abbrev pub IsWaiting : Goroutine W → Type 0
  IsWaiting (waiting t) = Unit
  IsWaiting g = ⊥

  abbrev pub Turn : List (Goroutine W) → Type 0
  Turn [] = Unit
  Turn (waiting t ∷ gs) = ⊥
  Turn (passing t ∷ gs) = All IsWaiting gs
  Turn (running t ∷ gs) = Turn gs
  Turn (finished r ∷ gs) = Turn gs
  Turn (gone ∷ gs) = ⊥

  Passes-IsWaiting : {gs hs : List (Goroutine W)} → Passes gs hs → All IsWaiting gs → ⊥
  Passes-IsWaiting pass_next h = h.0
  Passes-IsWaiting pass_last h = h.0
  Passes-IsWaiting (pass_behind p) h = Passes-IsWaiting p h.1

  Runs-IsWaiting :
      {w v : W} {r : Result} {gs hs : List (Goroutine W)} → Runs w v r gs hs → All IsWaiting gs → ⊥
  Runs-IsWaiting (run_here e) h = h.0
  Runs-IsWaiting (run_behind ran) h = Runs-IsWaiting ran h.1

  Passes-Turn : {gs hs : List (Goroutine W)} → Passes gs hs → Turn gs → Turn hs
  Passes-Turn pass_next h = h.1
  Passes-Turn pass_last h = tt
  Passes-Turn (pass_behind {g = waiting t} p) h = absurd h
  Passes-Turn (pass_behind {g = passing t} p) h = absurd (Passes-IsWaiting p h)
  Passes-Turn (pass_behind {g = running t} p) h = Passes-Turn p h
  Passes-Turn (pass_behind {g = finished r} p) h = Passes-Turn p h
  Passes-Turn (pass_behind {g = gone} p) h = absurd h

  Runs-Turn :
      {w v : W} {r : Result} {gs hs : List (Goroutine W)} → Runs w v r gs hs → Turn gs → Turn hs
  Runs-Turn (run_here e) h = h
  Runs-Turn (run_behind {g = waiting t} ran) h = absurd h
  Runs-Turn (run_behind {g = passing t} ran) h = absurd (Runs-IsWaiting ran h)
  Runs-Turn (run_behind {g = running t} ran) h = Runs-Turn ran h
  Runs-Turn (run_behind {g = finished r} ran) h = Runs-Turn ran h
  Runs-Turn (run_behind {g = gone} ran) h = absurd h

  abbrev pub HasTurn : Burst W → Type 0
  HasTurn s = s.returned ≡ none → Turn s.goroutines

  receive-goroutines :
      (s t : Burst W) (n : ℕ) (rs : List Result)
      → receive s n rs ≡ some t
      → t.goroutines ≡ s.goroutines
  unfolding receive
  receive-goroutines s t zero rs h = sym (ap (λ (x : Burst W). x.goroutines) (some-injective _ _ h))
  receive-goroutines s t (suc n) [] h = absurd (ground (arith, h))
  receive-goroutines s t (suc n) (none ∷ rs) h =
      sym (ap (λ (x : Burst W). x.goroutines) (some-injective _ _ h))
  receive-goroutines s t (suc n) (some e ∷ rs) h =
      sym (ap (λ (x : Burst W). x.goroutines) (some-injective _ _ h))

  Step-HasTurn : {s t : Burst W} → Step s t → HasTurn s → HasTurn t
  Step-HasTurn {s = s} (pass hs passes same) turn =
      subst⁻¹ HasTurn same (λ live. Passes-Turn passes (turn live))
  Step-HasTurn {s = s} (run hs r v runs same) turn =
      subst⁻¹ HasTurn same (λ live. Runs-Turn runs (turn live))
  Step-HasTurn {s = s} (quit hs r over quits same) turn =
      subst⁻¹ HasTurn same (λ live. absurd (ground (arith, over, live)))
  Step-HasTurn {s = s} {t = t} (collect live received) turn =
      λ l. subst⁻¹ Turn (receive-goroutines s t s.left s.chans received) (turn live)

  All-waiting : (ts : List (Go W Result)) → All IsWaiting (map waiting ts)
  All-waiting [] = tt
  All-waiting (t ∷ ts) = (tt, All-waiting ts)

  start_burst-HasTurn :
      (ts : List (Go W Result)) (w : W) (s : Burst W) → start_burst ts w ≡ some s → HasTurn s
  unfolding start_burst
  start_burst-HasTurn [] w s h = absurd (ground (arith, h))
  start_burst-HasTurn (t ∷ ts) w s h = subst HasTurn (some-injective _ _ h) (λ live. All-waiting ts)

  pub Reachable-HasTurn :
      (ts : List (Go W Result)) (w : W) {s : Burst W} → Reachable ts w s → HasTurn s
  Reachable-HasTurn ts w (started {s = s} h) = start_burst-HasTurn ts w s h
  Reachable-HasTurn ts w (step r st) = Step-HasTurn st (Reachable-HasTurn ts w r)
