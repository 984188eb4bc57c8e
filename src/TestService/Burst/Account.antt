-- ===== src/TestService/Burst/Account.antt =====
-- The results of a burst of tests that are read, sent and left to come
-- (v2/pkg/spike/api-test-service-impl.go).
use mathlib.Core.Option.{some-injective}
use mathlib.Core.Path.{subst}
use spike_broker.Prelude.{
  ℕ, zero, suc, ◌+◌, ◌≡◌, refl, ap, ◌∙◌, ◌⊎◌, inl, inr, Option, none, some, List, [], ◌∷◌, ◌++◌,
  arith, length, length-append, All, All-append,
}
use spike_broker.Broker.Message.{ErrorMessage}
use spike_broker.TestService.Burst.{
  Burst, Goroutine, finished, Result, Passes, pass_next, pass_last, pass_behind, Runs, run_here,
  run_behind, Quits, quit_here, quit_behind, receive,
}

abbrev pub weigh : Result → ℕ
weigh none = 0
weigh (some e) = 1

abbrev pub errors : List Result → ℕ
errors [] = 0
errors (r ∷ rs) = weigh r + errors rs

errors-append : (rs : List Result) (r : Result) → errors (rs ++ (r ∷ [])) ≡ errors rs + weigh r
errors-append [] r = omega arith
errors-append (q ∷ rs) r = let rest = errors-append rs r in omega (arith, rest)

errors-nil : (rs : List Result) → length rs ≡ 0 → errors rs ≡ 0
errors-nil [] h = refl
errors-nil (r ∷ rs) h = absurd (omega (arith, h))

module _ {W : Type 0} where
  abbrev pub weight : Goroutine W → ℕ
  weight (finished r) = 0
  weight g = 1

  -- The goroutines that have not ended with a result.
  abbrev pub pending : List (Goroutine W) → ℕ
  pending [] = 0
  pending (g ∷ gs) = weight g + pending gs

  abbrev pub failure : Goroutine W → ℕ
  failure (finished r) = weigh r
  failure g = 0

  abbrev pub failures : List (Goroutine W) → ℕ
  failures [] = 0
  failures (g ∷ gs) = failure g + failures gs

  abbrev pub IsFailed : ErrorMessage → Goroutine W → Type 0
  IsFailed e (finished r) = r ≡ some e
  IsFailed e g = ⊥

  -- One of the goroutines has ended with this error.
  abbrev pub Has : ErrorMessage → List (Goroutine W) → Type 0
  Has e [] = ⊥
  Has e (g ∷ gs) = IsFailed e g ⊎ Has e gs

  abbrev Known : List (Goroutine W) → Result → Type 0
  Known gs none = Unit
  Known gs (some e) = Has e gs

  -- What is returned, left to read and sent, against what the goroutines have ended with.
  abbrev pub Account : Option Result → ℕ → List Result → List (Goroutine W) → Type 0
  Account none n rs gs =
      (n ≡ pending gs + length rs) × (failures gs ≡ errors rs) × All (Known gs) rs
  Account (some none) n rs gs = (pending gs ≡ 0) × (failures gs ≡ 0)
  Account (some (some e)) n rs gs = Has e gs

  -- Goroutines that have become others: none has lost its result.
  abbrev Keeps : List (Goroutine W) → List (Goroutine W) → Type 0
  Keeps gs hs = (e : ErrorMessage) → Has e gs → Has e hs

  Known-later : (gs hs : List (Goroutine W)) (r : Result) → Keeps gs hs → Known gs r → Known hs r
  Known-later gs hs none keep h = tt
  Known-later gs hs (some e) keep h = keep e h

  All-Known :
      (gs hs : List (Goroutine W)) (rs : List Result)
      → Keeps gs hs
      → All (Known gs) rs
      → All (Known hs) rs
  All-Known gs hs [] keep h = tt
  All-Known gs hs (r ∷ rs) keep h = (Known-later gs hs r keep h.0, All-Known gs hs rs keep h.1)

  Keeps-cons :
      (g : Goroutine W) (gs hs : List (Goroutine W)) → Keeps gs hs → Keeps (g ∷ gs) (g ∷ hs)
  Keeps-cons g gs hs keep e (inl h) = inl h
  Keeps-cons g gs hs keep e (inr h) = inr (keep e h)

  -- A step in which no goroutine ends with a result.
  abbrev pub Same : List (Goroutine W) → List (Goroutine W) → Type 0
  Same gs hs = (pending hs ≡ pending gs) × (failures hs ≡ failures gs) × Keeps gs hs

  Same-cons : (g : Goroutine W) (gs hs : List (Goroutine W)) → Same gs hs → Same (g ∷ gs) (g ∷ hs)
  Same-cons g gs hs (p, f, keep) =
      (ap (λ n. weight g + n) p, ap (λ n. failure g + n) f, Keeps-cons g gs hs keep)

  pub Passes-Same : {gs hs : List (Goroutine W)} → Passes gs hs → Same gs hs
  Passes-Same pass_next = (refl, refl, λ e h. h)
  Passes-Same pass_last = (refl, refl, λ e h. h)
  Passes-Same (pass_behind p) = Same-cons _ _ _ (Passes-Same p)

  pub Quits-Same : {gs hs : List (Goroutine W)} → Quits gs hs → Same gs hs
  Quits-Same quit_here = (refl, refl, λ e h. h)
  Quits-Same (quit_behind q) = Same-cons _ _ _ (Quits-Same q)

  pub Account-Same :
      (o : Option Result) (n : ℕ) (rs : List Result) (gs hs : List (Goroutine W))
      → Same gs hs
      → Account o n rs gs
      → Account o n rs hs
  Account-Same none n rs gs hs (p, f, keep) (left, sent, known) =
      (rw p left, rw f sent, All-Known gs hs rs keep known)
  Account-Same (some none) n rs gs hs (p, f, keep) (done, passed) = (p ∙ done, f ∙ passed)
  Account-Same (some (some e)) n rs gs hs (p, f, keep) h = keep e h

  -- A goroutine that ends with a result.
  pub record Ended (r : Result) (gs hs : List (Goroutine W)) : Type 0 where
    fewer : pending gs ≡ suc (pending hs)
    more : failures hs ≡ failures gs + weigh r
    keeps : Keeps gs hs
    known : Known hs r

  Runs-Known : {w v : W} {r : Result} {gs hs : List (Goroutine W)} → Runs w v r gs hs → Known hs r
  Runs-Known {r = none} ran = tt
  Runs-Known {r = some e} (run_here ended) = inl refl
  Runs-Known {r = some e} (run_behind ran) = inr (Runs-Known ran)

  pub Runs-Ended :
      {w v : W} {r : Result} {gs hs : List (Goroutine W)} → Runs w v r gs hs → Ended r gs hs
  Runs-Ended {w = w} (run_here {t = t} ended) = record {
    fewer = omega arith;
    more = omega arith;
    keeps = λ e h. elim h [ inl bad ↦ absurd bad | inr h ↦ inr h ];
    known = Runs-Known {w = w} (run_here {t = t} ended);
  }
  Runs-Ended (run_behind ran) =
      let one = Runs-Ended ran in
      let fewer = one.fewer in
      let more = one.more in
      record {
        fewer = omega (arith, fewer);
        more = omega (arith, more);
        keeps = Keeps-cons _ _ _ one.keeps;
        known = Runs-Known (run_behind ran);
      }

  pub Account-Ended :
      (o : Option Result) (n : ℕ) (rs : List Result) (r : Result) (gs hs : List (Goroutine W))
      → Ended r gs hs
      → Account o n rs gs
      → Account o n (rs ++ (r ∷ [])) hs
  Account-Ended none n rs r gs hs ended (left, sent, known) =
      let fewer = ended.fewer in
      let more = ended.more in
      let long = length-append rs (r ∷ []) in
      let sum = errors-append rs r in
      (
        omega (arith, left, fewer, long),
        omega (arith, sent, more, sum),
        All-append (Known hs) rs (r ∷ []) (All-Known gs hs rs ended.keeps known) (ended.known, tt),
      )
  Account-Ended (some none) n rs r gs hs ended (done, passed) =
      let fewer = ended.fewer in absurd (omega (arith, fewer, done))
  Account-Ended (some (some e)) n rs r gs hs ended h = ended.keeps e h

  abbrev pub Accounted : Burst W → Type 0
  Accounted s = Account s.returned s.left s.chans s.goroutines

  pub receive-Account :
      (s t : Burst W) (n : ℕ) (rs : List Result)
      → Account none n rs s.goroutines
      → s.returned ≡ none
      → receive s n rs ≡ some t
      → Accounted t × (t.goroutines ≡ s.goroutines)
  unfolding receive
  receive-Account s t zero rs (left, sent, known) live h =
      subst (λ (x : Burst W). Accounted x × (x.goroutines ≡ s.goroutines)) (some-injective _ _ h)
        ((omega (arith, left), sent ∙ errors-nil rs (omega (arith, left))), refl)
  receive-Account s t (suc n) [] (left, sent, known) live h = absurd (ground (arith, h))
  receive-Account s t (suc n) (none ∷ rs) (left, sent, known) live h =
      subst (λ (x : Burst W). Accounted x × (x.goroutines ≡ s.goroutines)) (some-injective _ _ h)
        (rw live (omega (arith, left), omega (arith, sent), known.1), refl)
  receive-Account s t (suc n) (some e ∷ rs) (left, sent, known) live h =
      subst (λ (x : Burst W). Accounted x × (x.goroutines ≡ s.goroutines)) (some-injective _ _ h)
        (known.0, refl)
