-- ===== src/Text/Replace.antt =====
-- Replacing the first occurrence (strings.Replace with the count 1) and the bytes of a text.
use spike_broker.Prelude.{ℕ, ◌≡◌, refl, true, [], ◌∷◌, ◌++◌, Text, arith, length, drop}
use spike_broker.Text.{has_byte, has_prefix, replace_first}
use spike_broker.Text.Split.{Free}

pub Free-append : (c : ℕ) (s t : Text) → Free c s → Free c t → Free c (s ++ t)
unfolding has_byte
Free-append c [] t h k = k
Free-append c (d ∷ s) t h k = ground (arith, Free-append c s t)

pub has_prefix-append : (s t : Text) → has_prefix (s ++ t) s ≡ true
unfolding has_prefix
has_prefix-append [] [] = refl
has_prefix-append [] (c ∷ t) = refl
has_prefix-append (c ∷ s) t = ground (arith, has_prefix-append s t)

pub drop-length : (s t : Text) → drop (length s) (s ++ t) ≡ t
drop-length [] t = refl
drop-length (c ∷ s) t = drop-length s t

replace_first_here : (c : ℕ) (s t v : Text) → replace_first ((c ∷ s) ++ t) (c ∷ s) v ≡ v ++ t
unfolding replace_first
replace_first_here c s t v = ground (arith, has_prefix-append (c ∷ s) t, drop-length (c ∷ s) t)

-- Text without the first byte of what is replaced stays in front.
pub replace_first_behind :
    (c : ℕ) (pre s t v : Text)
    → Free c pre
    → replace_first (pre ++ ((c ∷ s) ++ t)) (c ∷ s) v ≡ pre ++ (v ++ t)
unfolding replace_first has_byte has_prefix
replace_first_behind c [] s t v h = replace_first_here c s t v
replace_first_behind c (d ∷ pre) s t v h = ground (arith, replace_first_behind c pre s t v)
