-- ===== src/V1/Middleware/Joined.antt =====
-- Texts that are joined by dots, as pkg/route/handlers/auth-middleware.go compares them.
use spike_broker.Prelude.{
  ℕ, suc, ◌+◌, ◌≡◌, refl, sym, ap, ◌∙◌, List, [], ◌∷◌, ◌++◌, arith, ◌==◌, if◌then◌else◌, length,
  All, Text,
}
use spike_broker.Text.{split, join, has_byte}
use spike_broker.Text.Split.{Free, split-join}

-- The dots of a text, and of several.
abbrev dots : Text → ℕ
dots [] = 0
dots (c ∷ s) = let rest = dots s in if c == b'.' then suc rest else rest

abbrev all_dots : List Text → ℕ
all_dots [] = 0
all_dots (s ∷ ss) = dots s + all_dots ss

dots-append : (s t : Text) → dots (s ++ t) ≡ dots s + dots t
dots-append [] t = omega arith
dots-append (c ∷ s) t = ground (arith, dots-append s t)

dots-join : (x : Text) (xs : List Text) → dots (join b'.' (x ∷ xs)) ≡ length xs + all_dots (x ∷ xs)
unfolding join
dots-join x [] = omega arith
dots-join x (y ∷ xs) =
    let rest = dots-join y xs in let one = dots-append x (b'.' ∷ join b'.' (y ∷ xs)) in omega arith

Free-dots : (s : Text) → Free b'.' s → dots s ≡ 0
unfolding has_byte
Free-dots [] h = refl
Free-dots (c ∷ s) h = ground (arith, Free-dots s)

dots-Free : (s : Text) → dots s ≡ 0 → Free b'.' s
unfolding has_byte
dots-Free [] h = refl
dots-Free (c ∷ s) h = ground (arith, dots-Free s)

Free-all_dots : (xs : List Text) → All (Free b'.') xs → all_dots xs ≡ 0
Free-all_dots [] h = refl
Free-all_dots (x ∷ xs) h =
    let one = Free-dots x h.0 in let rest = Free-all_dots xs h.1 in omega arith

all_dots-Free : (xs : List Text) → all_dots xs ≡ 0 → All (Free b'.') xs
all_dots-Free [] h = tt
all_dots-Free (x ∷ xs) h = (dots-Free x (omega arith), all_dots-Free xs (omega arith))

-- Two lists of one length that join to one text are equal, if the parts of one have no dots.
pub join-injective :
    (xs es : List Text)
    → length xs ≡ length es
    → All (Free b'.') es
    → join b'.' xs ≡ join b'.' es
    → xs ≡ es
join-injective [] [] h k e = refl
join-injective [] (x ∷ xs) h k e = absurd (omega (arith, h))
join-injective (x ∷ xs) [] h k e = absurd (omega (arith, h))
join-injective (x ∷ xs) (y ∷ ys) h k e =
    let one = dots-join x xs in
    let two = dots-join y ys in
    let bare = Free-all_dots (y ∷ ys) k in
    let same = ap dots e in
    sym (split-join b'.' x xs (all_dots-Free (x ∷ xs) (omega arith)))
    ∙ ap (split b'.') e
    ∙ split-join b'.' y ys k
