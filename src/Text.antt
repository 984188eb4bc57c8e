-- ===== src/Text.antt =====
-- The parts of Go's package strings that the broker calls, over lists of bytes: what splits an
-- endpoint into its parts and puts them together again.
pub mod Split
pub mod Replace
use spike_broker.Prelude.{
  ℕ, zero, suc, ◌+◌, ◌-◌, ◌*◌, ◌/◌, ◌%◌, ◌^◌, ◌≤◌, ◌<◌, ◌≡◌, refl, sym, ap, ◌∙◌, ◌≢◌, ◌↔◌, ◌⊎◌, inl,
  inr, Bool, true, false, not, ◌&&◌, ◌||◌, Option, none, some, List, [], ◌∷◌, ◌++◌, map, arith, ltb,
  leb, ◌==◌, if◌then◌else◌, ==_iff, Bool-cases, Option-cases, length, length-append, is_empty, drop,
  find, filter, drop_last, All, All-append, All-left, Text, codes, text_eq, text_eq_refl,
  text_eq_iff, text_eq_ne, Dict, lookup, insert, lookup-insert, contains,
}

-- A byte in front of the first part.
abbrev pub push_head : ℕ → List Text → List Text
push_head c [] = (c ∷ []) ∷ []
push_head c (p ∷ ps) = (c ∷ p) ∷ ps

-- strings.Split(s, sep) at a separator of one byte.
unfoldable pub split : ℕ → Text → List Text
split sep [] = [] ∷ []
split sep (c ∷ s) = let rest = split sep s in if c == sep then [] ∷ rest else push_head c rest

-- strings.Join(parts, sep) at a separator of one byte.
unfoldable pub join : ℕ → List Text → Text
join sep [] = []
join sep (p ∷ []) = p
join sep (p ∷ q ∷ ps) = p ++ (sep ∷ join sep (q ∷ ps))

-- strings.Contains(s, c) for a text of one byte.
unfoldable pub has_byte : ℕ → Text → Bool
has_byte c [] = false
has_byte c (d ∷ s) = (d == c) || has_byte c s

-- strings.HasPrefix(s, prefix).
unfoldable pub has_prefix : Text → Text → Bool
has_prefix s [] = true
has_prefix [] (p ∷ ps) = false
has_prefix (c ∷ s) (p ∷ ps) = (c == p) && has_prefix s ps

-- strings.Replace(s, old, new, 1).
unfoldable pub replace_first : Text → Text → Text → Text
replace_first [] old new = if has_prefix [] old then new else []
replace_first (c ∷ s) old new =
    if has_prefix (c ∷ s) old then new ++ drop (length old) (c ∷ s) else c ∷ replace_first s old new

-- `strings.ReplaceAll(s, sub, by)` for a `sub` that is not empty, after `skip` more bytes are left
-- out.
unfoldable pub replace_all : Text → Text → ℕ → Text → Text
replace_all sub by skip [] = []
replace_all sub by (suc skip) (c ∷ s) = replace_all sub by skip s
replace_all sub by zero (c ∷ s) =
    let kept = replace_all sub by zero s in
    let cut = replace_all sub by (length sub - 1) s in
    if has_prefix (c ∷ s) sub then by ++ cut else c ∷ kept
