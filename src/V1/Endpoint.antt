-- ===== src/V1/Endpoint.antt =====
-- PatternFromEndpoint of pkg/utils/utils.go: the pattern of version 1 that a client names.
pub mod First
use spike_broker.Prelude.{
  ℕ, zero, suc, ◌+◌, ◌-◌, ◌*◌, ◌/◌, ◌%◌, ◌^◌, ◌≤◌, ◌<◌, ◌≡◌, refl, sym, ap, ◌∙◌, ◌≢◌, ◌↔◌, ◌⊎◌, inl,
  inr, Bool, true, false, not, ◌&&◌, ◌||◌, Option, none, some, List, [], ◌∷◌, ◌++◌, map, arith, ltb,
  leb, ◌==◌, if◌then◌else◌, ==_iff, Bool-cases, Option-cases, length, length-append, is_empty, drop,
  find, filter, drop_last, All, All-append, All-left, Text, codes, text_eq, text_eq_refl,
  text_eq_iff, text_eq_ne, Dict, lookup, insert, lookup-insert, contains,
}
use spike_broker.Text.{split, has_prefix}
use spike_broker.V1.Rids.{Pattern}

-- The loop over the parts, with the parameters so far; `none` is `matches == false`.
unfoldable pub match_parts : List Text → List Text → Dict Text → Option (Dict Text)
match_parts [] [] m = some m
match_parts [] (e ∷ es) m = none
match_parts (p ∷ ps) [] m = none
match_parts (p ∷ ps) (e ∷ es) m =
    let bound = match_parts ps es (insert (drop 1 p) e m) in
    let same = match_parts ps es m in
    if has_prefix p (codes "$") then bound else if text_eq p e then same else none

-- One round of the loop over the patterns. The method is compared after the parts.
unfoldable pub match_pattern : List Text → Text → Pattern → Option (Dict Text)
match_pattern es verb p = elim (match_parts (split b'.' p.endpoint_no_params) es []) [
  | none ↦ none
  | some params ↦ if text_eq p.method verb then some params else none
]

-- The first pattern that matches, copied with the parameters of the endpoint.
unfoldable pub find_pattern : List Text → Text → List Pattern → Option Pattern
find_pattern es verb [] = none
find_pattern es verb (p ∷ ps) = elim (match_pattern es verb p) [
  | none ↦ find_pattern es verb ps
  | some params ↦ some (record p { params = params })
]

unfoldable pub pattern_from_endpoint : List Pattern → Text → Text → Option Pattern
pattern_from_endpoint ps endpoint verb = find_pattern (split b'.' endpoint) verb ps
