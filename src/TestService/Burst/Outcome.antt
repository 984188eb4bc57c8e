-- ===== src/TestService/Burst/Outcome.antt =====
-- What TestRequestOrPublishBurst returns (v2/pkg/spike/api-test-service-impl.go), in whatever order its
-- goroutines run.
use mathlib.Core.Option.{some-injective}
use mathlib.Core.Path.{subst, subst⁻¹}
use spike_broker.Prelude.{
  ℕ, ◌≡◌, refl, ◌⊎◌, inl, inr, Option, none, some, List, [], ◌∷◌, map, arith, length, All,
}
use spike_broker.Broker.Message.{ErrorMessage}
use spike_broker.Go.{Go, value}
use spike_broker.TestService.Burst.{
  Burst, Goroutine, waiting, passing, running, finished, gone, Result, Passes, pass_next, pass_last,
  pass_behind, Runs, run_here, run_behind, Quits, quit_here, quit_behind, Step, pass, run, quit,
  collect, Reachable, started, step, start_burst,
}
use spike_broker.TestService.Burst.Account.{
  pending, failures, Has, Account, Accounted, Passes-Same, Quits-Same, Account-Same, Account-Ended,
  Runs-Ended, receive-Account,
}

module _ {W : Type 0} where
  -- A test has been run, and this was its result.
  abbrev pub Ends : Result → Go W Result → Type 0
  Ends r t = (w : W) × (v : W) × (t w ≡ (value r, v))

  -- A goroutine is that of a test.
  abbrev pub Stands : Go W Result → Goroutine W → Type 0
  Stands t (waiting u) = u ≡ t
  Stands t (passing u) = u ≡ t
  Stands t (running u) = u ≡ t
  Stands t (finished r) = Ends r t
  Stands t gone = Unit

  abbrev pub Stand : List (Go W Result) → List (Goroutine W) → Type 0
  Stand [] [] = Unit
  Stand [] (g ∷ gs) = ⊥
  Stand (t ∷ ts) [] = ⊥
  Stand (t ∷ ts) (g ∷ gs) = Stands t g × Stand ts gs

  -- Each goroutine stays that of its test.
  Passes-Stand :
      (ts : List (Go W Result)) {gs hs : List (Goroutine W)}
      → Passes gs hs
      → Stand ts gs
      → Stand ts hs
  Passes-Stand [] pass_next h = absurd h
  Passes-Stand (t ∷ []) pass_next h = absurd h.1
  Passes-Stand (t ∷ u ∷ ts) pass_next h = h
  Passes-Stand [] pass_last h = absurd h
  Passes-Stand (t ∷ ts) pass_last h = h
  Passes-Stand [] (pass_behind p) h = absurd h
  Passes-Stand (t ∷ ts) (pass_behind p) h = (h.0, Passes-Stand ts p h.1)

  Runs-Stand :
      {w v : W} {r : Result} (ts : List (Go W Result)) {gs hs : List (Goroutine W)}
      → Runs w v r gs hs
      → Stand ts gs
      → Stand ts hs
  Runs-Stand [] (run_here ended) h = absurd h
  Runs-Stand {w = w} {v = v} {r = r} (t ∷ ts) (run_here ended) h =
      ((w, v, subst (λ (x : Go W Result). x w ≡ (value r, v)) h.0 ended), h.1)
  Runs-Stand [] (run_behind ran) h = absurd h
  Runs-Stand (t ∷ ts) (run_behind ran) h = (h.0, Runs-Stand ts ran h.1)

  Quits-Stand :
      (ts : List (Go W Result)) {gs hs : List (Goroutine W)}
      → Quits gs hs
      → Stand ts gs
      → Stand ts hs
  Quits-Stand [] quit_here h = absurd h
  Quits-Stand (t ∷ ts) quit_here h = (tt, h.1)
  Quits-Stand [] (quit_behind q) h = absurd h
  Quits-Stand (t ∷ ts) (quit_behind q) h = (h.0, Quits-Stand ts q h.1)

  waiting-Stand : (ts : List (Go W Result)) → Stand ts (map waiting ts)
  waiting-Stand [] = tt
  waiting-Stand (t ∷ ts) = (refl, waiting-Stand ts)

  waiting-pending :
      (ts : List (Go W Result))
      → (pending (map waiting ts) ≡ length ts) × (failures (map waiting ts) ≡ 0)
  waiting-pending [] = (refl, refl)
  waiting-pending (t ∷ ts) = let (p, f) = waiting-pending ts in (omega (arith, p), omega (arith, f))

  -- What holds in every state that a burst comes to.
  abbrev pub Invariant : List (Go W Result) → Burst W → Type 0
  Invariant ts s = Stand ts s.goroutines × Accounted s

  Step-Invariant :
      {s t : Burst W} (ts : List (Go W Result)) → Step s t → Invariant ts s → Invariant ts t
  Step-Invariant {s = s} ts (pass hs passes same) (stand, sums) = subst⁻¹ (Invariant ts) same (
    Passes-Stand ts passes stand,
    Account-Same s.returned s.left s.chans s.goroutines hs (Passes-Same passes) sums,
  )
  Step-Invariant {s = s} ts (run hs r v runs same) (stand, sums) = subst⁻¹ (Invariant ts) same (
    Runs-Stand ts runs stand,
    Account-Ended s.returned s.left s.chans r s.goroutines hs (Runs-Ended runs) sums,
  )
  Step-Invariant {s = s} ts (quit hs r over quits same) (stand, sums) =
      subst⁻¹ (Invariant ts) same (
        Quits-Stand ts quits stand,
        Account-Same s.returned s.left s.chans s.goroutines hs (Quits-Same quits) sums,
      )
  Step-Invariant {s = s} {t = t} ts (collect live received) (stand, sums) =
      let (sums', same) =
        receive-Account s t s.left s.chans
          (subst (λ (o : Option Result). Account o s.left s.chans s.goroutines) live sums) live
          received in
      (subst⁻¹ (Stand ts) same stand, sums')

  start_burst-Invariant :
      (ts : List (Go W Result)) (w : W) (s : Burst W) → start_burst ts w ≡ some s → Invariant ts s
  unfolding start_burst
  start_burst-Invariant [] w s h = absurd (ground (arith, h))
  start_burst-Invariant (t ∷ ts) w s h =
      let (p, f) = waiting-pending ts in
      subst (Invariant (t ∷ ts)) (some-injective _ _ h)
        ((refl, waiting-Stand ts), (omega (arith, p), omega (arith, f), tt))

  pub Reachable-Invariant :
      (ts : List (Go W Result)) (w : W) {s : Burst W} → Reachable ts w s → Invariant ts s
  Reachable-Invariant ts w (started {s = s} h) = start_burst-Invariant ts w s h
  Reachable-Invariant ts w (step r st) = Step-Invariant ts st (Reachable-Invariant ts w r)

  -- One of the tests.
  abbrev pub One : (Go W Result → Type 0) → List (Go W Result) → Type 0
  One P [] = ⊥
  One P (t ∷ ts) = P t ⊎ One P ts

  -- What a returned result says of the tests.
  abbrev pub Explains : List (Go W Result) → Option Result → Type 0
  Explains ts none = Unit
  Explains ts (some none) = All (Ends none) ts
  Explains ts (some (some e)) = One (Ends (some e)) ts

  Stand-passed :
      (ts : List (Go W Result)) (gs : List (Goroutine W))
      → Stand ts gs
      → pending gs ≡ 0
      → failures gs ≡ 0
      → All (Ends none) ts
  Stand-passed [] [] h p f = tt
  Stand-passed [] (g ∷ gs) h p f = absurd h
  Stand-passed (t ∷ ts) [] h p f = absurd h
  Stand-passed (t ∷ ts) (waiting u ∷ gs) h p f = absurd (omega (arith, p))
  Stand-passed (t ∷ ts) (passing u ∷ gs) h p f = absurd (omega (arith, p))
  Stand-passed (t ∷ ts) (running u ∷ gs) h p f = absurd (omega (arith, p))
  Stand-passed (t ∷ ts) (finished none ∷ gs) h p f =
      (h.0, Stand-passed ts gs h.1 (omega (arith, p)) (omega (arith, f)))
  Stand-passed (t ∷ ts) (finished (some e) ∷ gs) h p f = absurd (omega (arith, f))
  Stand-passed (t ∷ ts) (gone ∷ gs) h p f = absurd (omega (arith, p))

  Stand-failed :
      (ts : List (Go W Result)) (gs : List (Goroutine W)) (e : ErrorMessage)
      → Stand ts gs
      → Has e gs
      → One (Ends (some e)) ts
  Stand-failed [] [] e h k = absurd k
  Stand-failed [] (g ∷ gs) e h k = absurd h
  Stand-failed (t ∷ ts) [] e h k = absurd h
  Stand-failed (t ∷ ts) (finished r ∷ gs) e h (inl same) =
      inl (subst (λ (x : Result). Ends x t) same h.0)
  Stand-failed (t ∷ ts) (waiting u ∷ gs) e h (inl bad) = absurd bad
  Stand-failed (t ∷ ts) (passing u ∷ gs) e h (inl bad) = absurd bad
  Stand-failed (t ∷ ts) (running u ∷ gs) e h (inl bad) = absurd bad
  Stand-failed (t ∷ ts) (gone ∷ gs) e h (inl bad) = absurd bad
  Stand-failed (t ∷ ts) (g ∷ gs) e h (inr k) = inr (Stand-failed ts gs e h.1 k)

  explained :
      (ts : List (Go W Result)) (o : Option Result) (n : ℕ) (rs : List Result)
      (gs : List (Goroutine W))
      → Stand ts gs
      → Account o n rs gs
      → Explains ts o
  explained ts none n rs gs h a = tt
  explained ts (some none) n rs gs h (p, f) = Stand-passed ts gs h p f
  explained ts (some (some e)) n rs gs h a = Stand-failed ts gs e h a

  -- In whatever order the goroutines of a burst run, it returns no error only when each test has been
  -- run and has ended without an error, and it returns an error only if a test has ended with it. A
  -- test runs in one step.
  pub Reachable-Explains :
      (ts : List (Go W Result)) (w : W) (s : Burst W) → Reachable ts w s → Explains ts s.returned
  Reachable-Explains ts w s r =
      let (stand, sums) = Reachable-Invariant ts w r in
      explained ts s.returned s.left s.chans s.goroutines stand sums
