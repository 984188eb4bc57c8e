-- ===== src/Socket/Endpoint.antt =====
-- v2/pkg/spike/socket/utils.go: the pattern that a client's endpoint names.
pub mod Found
use spike_broker.Prelude.{
  ℕ, zero, suc, ◌+◌, ◌-◌, ◌*◌, ◌/◌, ◌%◌, ◌^◌, ◌≤◌, ◌<◌, ◌≡◌, refl, sym, ap, ◌∙◌, ◌≢◌, ◌↔◌, ◌⊎◌, inl,
  inr, Bool, true, false, not, ◌&&◌, ◌||◌, Option, none, some, List, [], ◌∷◌, ◌++◌, map, arith, ltb,
  leb, ◌==◌, if◌then◌else◌, ==_iff, Bool-cases, Option-cases, length, length-append, is_empty, drop,
  find, filter, drop_last, All, Text, codes, text_eq, text_eq_refl, text_eq_iff, text_eq_ne, Dict,
  lookup, insert, lookup-insert, contains,
}
use spike_broker.Text.{split, has_prefix}
use spike_broker.Rids.Method.{Params}
use spike_broker.Rids.Pattern.{Pattern, Any, str, query, set_params, clone, endpoint_name}
use spike_broker.Broker.Message.{ErrorMessage, new_service_unavailable_error}

-- The loop over the parts of one pattern, with the parameters collected so far; `none` is
-- `matches == false`. Lists of different lengths are skipped before the loop.
unfoldable pub match_parts : List Text → List Text → Params → Option Params
match_parts [] es m = some m
match_parts (p ∷ ps) [] m = none
match_parts (p ∷ ps) (e ∷ es) m = elim (has_prefix p (codes "$")) [
  | true ↦ match_parts ps es (insert (drop 1 p) (if text_eq e (codes "*") then p else e) m)
  | false ↦ elim (text_eq p e) [ true ↦ match_parts ps es m | false ↦ none ]
]

-- One round of the loop over the patterns.
unfoldable pub match_pattern : List Text → Pattern → Option Params
match_pattern es p =
    let ps = split b'.' (endpoint_name p) in
    if length ps == length es then match_parts ps es [] else none

abbrev pub head_text : List Text → Text
head_text [] = []
head_text (t ∷ ts) = t

-- The query behind the first `?`, if any.
abbrev pub with_query : List Text → Pattern → Pattern
with_query (path ∷ q ∷ qs) p = query (str q) p
with_query qs p = p

-- A copy of the pattern with the parameters and the query of the endpoint.
unfoldable pub instantiate : List Text → Params → Pattern → Pattern
instantiate query_parts params p = with_query query_parts (set_params params (clone p))

unfoldable pub find_pattern : List Text → List Text → List Pattern → Option Pattern
find_pattern query_parts es [] = none
find_pattern query_parts es (p ∷ ps) = elim (match_pattern es p) [
  | none ↦ find_pattern query_parts es ps
  | some params ↦ some (instantiate query_parts params p)
]

pub data Lookup : Type 0 where
  found : Pattern → Lookup
  failed : ErrorMessage → Lookup

unfoldable pub pattern_from_endpoint : List Pattern → Text → Lookup
pattern_from_endpoint patterns specific_endpoint =
    let query_parts = split b'?' specific_endpoint in
    elim (find_pattern query_parts (split b'.' (head_text query_parts)) patterns) [
      | none ↦ failed (new_service_unavailable_error specific_endpoint)
      | some p ↦ found p
    ]
