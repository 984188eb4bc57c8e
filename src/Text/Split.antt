-- ===== src/Text/Split.antt =====
-- Splitting and joining (strings.Split and strings.Join) undo one another.
use spike_broker.Prelude.{
  ℕ, ◌≡◌, refl, ap, ◌∙◌, ◌≢◌, false, List, [], ◌∷◌, ◌++◌, Text, arith, All, ◌==◌,
}
use spike_broker.Text.{split, join, push_head, has_byte}

pub split-ne-nil : (sep : ℕ) (s : Text) → split sep s ≢ []
unfolding split
split-ne-nil sep [] = λ e. cc
split-ne-nil sep (c ∷ s) = ground arith

join-push_head : (sep c : ℕ) (ps : List Text) → join sep (push_head c ps) ≡ c ∷ join sep ps
unfolding join
join-push_head sep c [] = refl
join-push_head sep c (p ∷ []) = refl
join-push_head sep c (p ∷ q ∷ ps) = refl

join-nil_cons : (sep : ℕ) (ps : List Text) → ps ≢ [] → join sep ([] ∷ ps) ≡ sep ∷ join sep ps
unfolding join
join-nil_cons sep [] h = absurd (h refl)
join-nil_cons sep (p ∷ ps) h = refl

pub join-split : (sep : ℕ) (s : Text) → join sep (split sep s) ≡ s
unfolding split
join-split sep [] = unfold join in refl
join-split sep (c ∷ s) = ground (
  arith,
  join-split sep s,
  join-push_head sep c (split sep s),
  join-nil_cons sep (split sep s) (split-ne-nil sep s),
)

-- The text holds no such byte.
abbrev pub Free : ℕ → Text → Type 0
Free sep s = has_byte sep s ≡ false

pub split-append :
    (sep : ℕ) (p s : Text) → Free sep p → split sep (p ++ (sep ∷ s)) ≡ p ∷ split sep s
unfolding split has_byte
split-append sep [] s h = ground arith
split-append sep (c ∷ p) s h = ground (arith, split-append sep p s)

pub split_of_Free : (sep : ℕ) (p : Text) → Free sep p → split sep p ≡ p ∷ []
unfolding split has_byte
split_of_Free sep [] h = refl
split_of_Free sep (c ∷ p) h = ground (arith, split_of_Free sep p)

pub split-join :
    (sep : ℕ) (p : Text) (ps : List Text)
    → All (Free sep) (p ∷ ps)
    → split sep (join sep (p ∷ ps)) ≡ p ∷ ps
unfolding join
split-join sep p [] h = split_of_Free sep p h.0
split-join sep p (q ∷ ps) h =
    split-append sep p (join sep (q ∷ ps)) h.0 ∙ ap (λ r. p ∷ r) (split-join sep q ps h.1)

pub All-push_head :
    (sep c : ℕ) (ps : List Text)
    → (c == sep) ≡ false
    → All (Free sep) ps
    → All (Free sep) (push_head c ps)
unfolding has_byte
All-push_head sep c [] h k = ground arith
All-push_head sep c (p ∷ ps) h k = ground arith

pub split-Free : (sep : ℕ) (s : Text) → All (Free sep) (split sep s)
unfolding split has_byte
split-Free sep [] = (refl, tt)
split-Free sep (c ∷ s) = ground (arith, split-Free sep s, All-push_head sep c (split sep s))

push_head-append :
    (c : ℕ) (xs ys : List Text) → xs ≢ [] → push_head c (xs ++ ys) ≡ push_head c xs ++ ys
push_head-append c [] ys h = absurd (h refl)
push_head-append c (x ∷ xs) ys h = refl

-- A text splits at any of its separators.
pub split-append_any :
    (sep : ℕ) (s t : Text) → split sep (s ++ (sep ∷ t)) ≡ split sep s ++ split sep t
unfolding split
split-append_any sep [] t = ground arith
split-append_any sep (c ∷ s) t = ground (
  arith,
  split-append_any sep s t,
  push_head-append c (split sep s) (split sep t) (split-ne-nil sep s),
)
