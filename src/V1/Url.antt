-- ===== src/V1/Url.antt =====
-- The address of an endpoint for REST clients of version 1: `EndpointHTTP` of pkg/rids/base.go.
pub mod Own
use spike_broker.Prelude.{
  ℕ, zero, suc, ◌+◌, ◌-◌, ◌*◌, ◌/◌, ◌%◌, ◌^◌, ◌≤◌, ◌<◌, ◌≡◌, refl, sym, ap, ◌∙◌, ◌≢◌, ◌↔◌, ◌⊎◌, inl,
  inr, Bool, true, false, not, ◌&&◌, ◌||◌, Option, none, some, List, [], ◌∷◌, ◌++◌, map, arith, ltb,
  leb, ◌==◌, if◌then◌else◌, ==_iff, Bool-cases, Option-cases, length, length-append, is_empty, drop,
  find, filter, drop_last, All, All-append, All-left, Text, codes, text_eq, text_eq_refl,
  text_eq_iff, text_eq_ne, Dict, lookup, insert, lookup-insert, contains,
}
use spike_broker.V1.Rids.{Pattern, endpoint_no_method}
use spike_broker.V1.Nats.{fill_params}
use spike_broker.V1.Middleware.{slashes}

-- The query of a pattern, which package urlquery has encoded.
abbrev pub query_text : Option Text → Text
query_text none = []
query_text (some q) = if is_empty q then [] else b'?' ∷ q

-- `EndpointHTTP`. The loop over the parameters is the one of V1/Nats.
unfoldable pub endpoint_http : Pattern → Text
endpoint_http p =
    codes "/api/"
    ++ (fill_params p.params (slashes (endpoint_no_method p)) ++ query_text p.query_params)
