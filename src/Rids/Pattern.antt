-- ===== src/Rids/Pattern.antt =====
-- v2/pkg/rids/pattern.go. A pattern holds a method and query parameters; `EndpointName` and
-- `EndpointNameSpecific` are its generic and its filled-in subject.
use spike_broker.Prelude.{
  ℕ, Bool, ◌||◌, none, some, List, [], ◌∷◌, ◌++◌, Text, text_eq, if◌then◌else◌, is_empty, map, drop,
  drop_last, lookup,
}
use spike_broker.Text.{split, join, replace_first}
use spike_broker.Rids.Verb
use spike_broker.Rids.Verb.{MethodType}
use spike_broker.Rids.Method.{
  Params, Method, is_placeholder, new_method, make_internal, make_verb, update_params,
}

-- A Go value of type `interface{}`, as far as the broker looks into it; any other value is given
-- by its JSON text.
pub data Any : Type 0 where
  nil : Any
  bytes : Text → Any
  str : Text → Any
  json : Text → Any

-- A pattern whose `MethodValue` is not nil, as `newPattern` makes it.
pub record Pattern : Type 0 where
  pub method_value : Method
  pub query_params_value : Any

unfoldable pub new_pattern : Method → Pattern
new_pattern m = record { method_value = m; query_params_value = nil }

module _ (p : Pattern) where
  abbrev pub version : ℕ
  version = p.method_value.version

  abbrev pub params : Params
  params = p.method_value.params

  abbrev pub is_public : Bool
  is_public = p.method_value.is_public

  abbrev pub service : Text
  service = p.method_value.service_name

  abbrev pub method : MethodType
  method = p.method_value.http_method

-- `Query`.
unfoldable pub query : Any → Pattern → Pattern
query q p = record p { query_params_value = q }

unfoldable pub set_params : Params → Pattern → Pattern
set_params params p = record p { method_value = update_params params p.method_value }

-- `Clone`: a new pattern over a copy of the method, with the query of the old one.
unfoldable pub clone : Pattern → Pattern
clone p = query p.query_params_value (new_pattern p.method_value)

-- Two and three texts with dots between, as by `fmt.Sprintf("%v.%v", …)`.
abbrev dotted : Text → Text → Text
dotted a b = a ++ (b'.' ∷ b)

unfoldable pub endpoint_name : Pattern → Text
endpoint_name p =
    let m = p.method_value in
    if is_empty m.generic_endpoint
    then dotted m.service_name m.http_method
    else dotted m.service_name (dotted m.generic_endpoint m.http_method)

-- One round of the loop in `EndpointNameSpecific`.
unfoldable pub fill_part : Params → Text → Text → Text
fill_part values endpoint part =
    if is_placeholder part
    then elim (lookup (drop 1 part) values) [
      | none ↦ endpoint
      | some param ↦ if is_empty param then endpoint else replace_first endpoint part param
    ]
    else endpoint

unfoldable pub fill_parts : Params → Text → List Text → Text
fill_parts values endpoint [] = endpoint
fill_parts values endpoint (part ∷ parts) = fill_parts values (fill_part values endpoint part) parts

unfoldable pub endpoint_name_specific : Pattern → Text
endpoint_name_specific p =
    let m = p.method_value in
    if is_empty m.generic_endpoint
    then endpoint_name p
    else dotted m.service_name (
        dotted (fill_parts m.params m.generic_endpoint (split b'.' m.generic_endpoint))
          m.http_method)

-- `fmt.Sprintf("?%s", query)` for a query that is not empty.
abbrev url_query : Text → Text
url_query q = if is_empty q then [] else b'?' ∷ q

-- The switch on the query's type; `encode` is the encoder of package urlquery.
abbrev query_suffix : (Text → Text) → Any → Text
query_suffix encode nil = []
query_suffix encode (bytes q) = url_query q
query_suffix encode (str q) = url_query q
query_suffix encode (json v) = url_query (encode v)

unfoldable pub endpoint_rest : (Text → Text) → Pattern → Text
endpoint_rest encode p =
    let parts = split b'.' (endpoint_name_specific p) in
    let prefix = p.method_value.http_prefix in
    b'/'
    ∷ ((if is_empty prefix then [] else prefix ++ (b'/' ∷ []))
        ++ (join b'/' (drop_last parts) ++ query_suffix encode p.query_params_value))

-- The results of `NewPatternFromString`: an error, or a panic on a verb it does not know.
pub data Parsed : Type 0 where
  parsed : Pattern → Parsed
  invalid_endpoint : Text → Parsed
  invalid_verb : Parsed

-- The switch on the method type.
unfoldable pub pattern_of_verb : MethodType → Method → Parsed
pattern_of_verb verb m =
    if text_eq verb Verb.internal
    then parsed (new_pattern (make_internal m))
    else if text_eq verb Verb.get
        || text_eq verb Verb.delete
        || text_eq verb Verb.patch
        || text_eq verb Verb.put
        || text_eq verb Verb.post
        || text_eq verb Verb.event
    then parsed (new_pattern (make_verb verb m))
    else invalid_verb

-- The service is the first part and the path the others; fewer than two parts are an error.
unfoldable pub from_parts : (Text → Text → Parsed) → Text → List Text → Parsed
from_parts build endpoint (service_name ∷ part ∷ parts) =
    build service_name (join b'.' (part ∷ parts))
from_parts build endpoint parts = invalid_endpoint endpoint

unfoldable pub new_pattern_from_string : Text → MethodType → Parsed
new_pattern_from_string endpoint verb =
    from_parts
      (λ service_name path. pattern_of_verb verb (new_method service_name [] [] [] path 2 []))
      endpoint (split b'.' endpoint)

-- `NewPatternFromV1`: the values of the parameters in the order that the map is walked.
unfoldable pub new_pattern_from_v1 : Text → Params → Parsed
new_pattern_from_v1 endpoint values =
    from_parts
      (λ service_name path.
        parsed (new_pattern (new_method service_name [] [] [] path 1 (map (λ e. e.1) values))))
      endpoint (split b'.' endpoint)
