-- ===== src/TestService/Burst.antt =====
-- TestRequestOrPublishBurst of v2/pkg/spike/api-test-service-impl.go: several tests in goroutines of
-- their own, as a system of steps that may be taken in any order.
pub mod Account
pub mod Outcome
pub mod Requests
pub mod Returns
pub mod Turn
use spike_broker.Prelude.{
  ℕ, zero, suc, ◌+◌, ◌-◌, ◌*◌, ◌/◌, ◌%◌, ◌^◌, ◌≤◌, ◌<◌, ◌≡◌, refl, sym, ap, ◌∙◌, ◌≢◌, ◌↔◌, ◌⊎◌, inl,
  inr, Bool, true, false, not, ◌&&◌, ◌||◌, Option, none, some, List, [], ◌∷◌, ◌++◌, map, arith, ltb,
  leb, ◌==◌, if◌then◌else◌, ==_iff, Bool-cases, Option-cases, length, length-append, is_empty, drop,
  find, filter, drop_last, All, All-append, All-left, Text, codes, text_eq, text_eq_refl,
  text_eq_iff, text_eq_ne, Dict, lookup, insert, lookup-insert, contains,
}
use spike_broker.Broker.Message.{ErrorMessage}
use spike_broker.Go.{Go, Exit, value}

-- What a test sends on `chans`.
abbrev pub Result : Type 0
Result = Option ErrorMessage

-- A goroutine, with its test: it waits for its turn on `order`, passes the turn on, runs its test, and
-- ends with the result, or because the context is done.
pub data Goroutine (W : Type 0) : Type 0 where
  waiting : Go W Result → Goroutine W
  passing : Go W Result → Goroutine W
  running : Go W Result → Goroutine W
  finished : Result → Goroutine W
  gone : Goroutine W

-- `chans`, the rounds that are left to the loop which reads it, and what the function has returned,
-- after which the context is done.
pub record Burst (W : Type 0) : Type 0 where
  pub goroutines : List (Goroutine W)
  pub chans : List Result
  pub left : ℕ
  pub returned : Option Result
  pub world : W

module _ {W : Type 0} where
  abbrev start : Go W Result → List (Go W Result) → W → Burst W
  start test tests w = record {
    goroutines = passing test ∷ map waiting tests;
    chans = [];
    left = suc (length tests);
    returned = none;
    world = w;
  }

  -- The goroutines when `order[0]` has been sent, which panics where there is no test.
  unfoldable pub start_burst : List (Go W Result) → W → Option (Burst W)
  start_burst [] w = none
  start_burst (test ∷ tests) w = some (start test tests w)

  -- One round of the loop: it waits for a result, and an error is returned.
  unfoldable pub receive : Burst W → ℕ → List Result → Option (Burst W)
  receive s zero rs = some (record s { returned = some none })
  receive s (suc n) [] = none
  receive s (suc n) (none ∷ rs) = some (record s { chans = rs; left = n })
  receive s (suc n) (some e ∷ rs) =
      some (record s { chans = rs; left = n; returned = some (some e) })

  -- A goroutine passes the turn to the next, which must wait for it; the last runs at once.
  pub data Passes : List (Goroutine W) → List (Goroutine W) → Type 0 where
    pass_next :
        {t u : Go W Result} {gs : List (Goroutine W)}
        → Passes (passing t ∷ waiting u ∷ gs) (running t ∷ passing u ∷ gs)
    pass_last : {t : Go W Result} → Passes (passing t ∷ []) (running t ∷ [])
    pass_behind :
        {g : Goroutine W} {gs hs : List (Goroutine W)} → Passes gs hs → Passes (g ∷ gs) (g ∷ hs)

  -- A goroutine runs its test; a panic there would end the process.
  pub data Runs (w v : W) (r : Result) : List (Goroutine W) → List (Goroutine W) → Type 0 where
    run_here :
        {t : Go W Result} {gs : List (Goroutine W)}
        → t w ≡ (value r, v)
        → Runs w v r (running t ∷ gs) (finished r ∷ gs)
    run_behind :
        {g : Goroutine W} {gs hs : List (Goroutine W)}
        → Runs w v r gs hs
        → Runs w v r (g ∷ gs) (g ∷ hs)

  -- A goroutine that waits sees that the context is done.
  pub data Quits : List (Goroutine W) → List (Goroutine W) → Type 0 where
    quit_here : {t : Go W Result} {gs : List (Goroutine W)} → Quits (waiting t ∷ gs) (gone ∷ gs)
    quit_behind :
        {g : Goroutine W} {gs hs : List (Goroutine W)} → Quits gs hs → Quits (g ∷ gs) (g ∷ hs)

  -- One step, of a goroutine or of the function itself. A test runs in one step.
  pub data Step (s t : Burst W) : Type 0 where
    pass :
        (hs : List (Goroutine W))
        → Passes s.goroutines hs
        → t ≡ record s { goroutines = hs }
        → Step s t
    run :
        (hs : List (Goroutine W)) (r : Result) (v : W)
        → Runs s.world v r s.goroutines hs
        → t ≡ record s { goroutines = hs; chans = s.chans ++ (r ∷ []); world = v }
        → Step s t
    quit :
        (hs : List (Goroutine W)) (r : Result)
        → s.returned ≡ some r
        → Quits s.goroutines hs
        → t ≡ record s { goroutines = hs }
        → Step s t
    collect : s.returned ≡ none → receive s s.left s.chans ≡ some t → Step s t

  -- The states that a burst of these tests comes to.
  pub data Reachable (tests : List (Go W Result)) (w : W) : Burst W → Type 0 where
    started : {s : Burst W} → start_burst tests w ≡ some s → Reachable tests w s
    step : {s t : Burst W} → Reachable tests w s → Step s t → Reachable tests w t
