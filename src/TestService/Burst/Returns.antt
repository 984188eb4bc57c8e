-- ===== src/TestService/Burst/Returns.antt =====
-- How TestRequestOrPublishBurst comes to its end (v2/pkg/spike/api-test-service-impl.go).
use mathlib.Core.Path.{subst, subst⁻¹}
use spike_broker.Prelude.{
  ℕ, zero, suc, ◌+◌, ◌<◌, ◌≡◌, refl, ap, ◌∙◌, ◌⊎◌, inl, inr, Option, none, some, List, [], ◌∷◌,
  arith, Option-cases, length, All,
}
use spike_broker.Go.{Go, value}
use spike_broker.TestService.Burst.{
  Burst, Goroutine, waiting, passing, running, finished, gone, Result, Passes, pass_next, pass_last,
  pass_behind, Runs, run_here, run_behind, Step, pass, run, collect, Reachable, started, step,
  receive, start_burst,
}
use spike_broker.TestService.Burst.Account.{pending, Account}
use spike_broker.TestService.Burst.Outcome.{Stand, Reachable-Invariant}
use spike_broker.TestService.Burst.Turn.{measure, Step-measure, Turn, Reachable-HasTurn}

module _ {W : Type 0} where
  -- The test ends in any state without a panic.
  abbrev pub IsTotal : {A : Type 0} → Go W A → Type 0
  IsTotal {A = A} t = (w : W) → (r : A) × (v : W) × (t w ≡ (value r, v))

  -- A goroutine can go on.
  abbrev Goes : W → List (Goroutine W) → Type 0
  Goes w gs =
      ((hs : List (Goroutine W)) × Passes gs hs)
      ⊎ ((hs : List (Goroutine W)) × (r : Result) × (v : W) × Runs w v r gs hs)

  Goes-cons : (w : W) (g : Goroutine W) (gs : List (Goroutine W)) → Goes w gs → Goes w (g ∷ gs)
  Goes-cons w g gs (inl (hs, p)) = inl (g ∷ hs, pass_behind p)
  Goes-cons w g gs (inr (hs, r, v, ran)) = inr (g ∷ hs, r, v, run_behind ran)

  Turn-Goes :
      (w : W) (n : ℕ) (ts : List (Go W Result)) (gs : List (Goroutine W))
      → All IsTotal ts
      → Stand ts gs
      → Turn gs
      → pending gs ≡ suc n
      → Goes w gs
  Turn-Goes w n [] [] total h turn p = absurd (omega (arith, p))
  Turn-Goes w n [] (g ∷ gs) total h turn p = absurd h
  Turn-Goes w n (t ∷ ts) [] total h turn p = absurd h
  Turn-Goes w n (t ∷ ts) (waiting u ∷ gs) total h turn p = absurd turn
  Turn-Goes w n (t ∷ ts) (gone ∷ gs) total h turn p = absurd turn
  Turn-Goes w n (t ∷ ts) (passing u ∷ []) total h turn p = inl (_, pass_last)
  Turn-Goes w n (t ∷ ts) (passing u ∷ waiting v ∷ gs) total h turn p = inl (_, pass_next)
  Turn-Goes w n (t ∷ ts) (passing u ∷ passing v ∷ gs) total h turn p = absurd turn.0
  Turn-Goes w n (t ∷ ts) (passing u ∷ running v ∷ gs) total h turn p = absurd turn.0
  Turn-Goes w n (t ∷ ts) (passing u ∷ finished r ∷ gs) total h turn p = absurd turn.0
  Turn-Goes w n (t ∷ ts) (passing u ∷ gone ∷ gs) total h turn p = absurd turn.0
  Turn-Goes w n (t ∷ ts) (running u ∷ gs) total h turn p =
      let (r, v, ended) = total.0 w in
      inr (_, r, v, run_here (subst⁻¹ (λ (x : Go W Result). x w ≡ (value r, v)) h.0 ended))
  Turn-Goes w n (t ∷ ts) (finished r ∷ gs) total h turn p =
      Goes-cons w (finished r) gs (Turn-Goes w n ts gs total.1 h.1 turn (omega (arith, p)))

  Goes-Step : (s : Burst W) → Goes s.world s.goroutines → (t : Burst W) × Step s t
  Goes-Step s (inl (hs, p)) = (_, pass hs p refl)
  Goes-Step s (inr (hs, r, v, ran)) = (_, run hs r v ran refl)

  -- Until the function has returned, something can happen.
  progress :
      (ts : List (Go W Result)) (s : Burst W) (n : ℕ) (rs : List Result)
      → All IsTotal ts
      → Stand ts s.goroutines
      → Turn s.goroutines
      → s.returned ≡ none
      → n ≡ pending s.goroutines + length rs
      → s.left ≡ n
      → s.chans ≡ rs
      → (t : Burst W) × Step s t
  unfolding receive
  progress ts s zero rs total h turn live count left sent =
      (_, collect live (ap (λ (n : ℕ). receive s n s.chans) left))
  progress ts s (suc n) [] total h turn live count left sent =
      Goes-Step s (Turn-Goes s.world n ts s.goroutines total h turn (omega (arith, count)))
  progress ts s (suc n) (none ∷ rs) total h turn live count left sent =
      (_, collect live (ap (λ (n : ℕ). receive s n s.chans) left ∙ ap (receive s (suc n)) sent))
  progress ts s (suc n) (some e ∷ rs) total h turn live count left sent =
      (_, collect live (ap (λ (n : ℕ). receive s n s.chans) left ∙ ap (receive s (suc n)) sent))

  -- The function returns, whatever step is taken next: it has returned, or a step can be taken and it
  -- returns after each.
  pub data Returning : Burst W → Type 0 where
    now : {s : Burst W} (r : Result) → s.returned ≡ some r → Returning s
    later :
        {s : Burst W} (t : Burst W)
        → Step s t
        → ((u : Burst W) → Step s u → Returning u)
        → Returning s

  returns_within :
      (ts : List (Go W Result)) (w : W) (n : ℕ) (s : Burst W)
      → All IsTotal ts
      → Reachable ts w s
      → measure s < n
      → Returning s
  returns_within ts w zero s total r less = absurd (omega (arith, less))
  returns_within ts w (suc n) s total r less = elim (Option-cases s.returned) [
    | inl live ↦
        let (stand, sums) = Reachable-Invariant ts w r in
        let (count, sent, known) =
          subst (λ (o : Option Result). Account o s.left s.chans s.goroutines) live sums in
        let (t, st) =
          progress ts s s.left s.chans total stand (Reachable-HasTurn ts w r live) live count refl
            refl in
        later t st (λ u su.
          let fewer = Step-measure su in
          returns_within ts w n u total (step r su) (omega (arith, fewer, less)))
    | inr (o, over) ↦ now o over
  ]

  -- A burst of at least one test returns in whatever order its goroutines run, if the tests end without
  -- a panic. A test runs in one step.
  pub start_burst-Returning :
      (ts : List (Go W Result)) (w : W) (s : Burst W)
      → All IsTotal ts
      → start_burst ts w ≡ some s
      → Returning s
  start_burst-Returning ts w s total h =
      returns_within ts w (suc (measure s)) s total (started h) (omega arith)
