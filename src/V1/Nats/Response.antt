-- ===== src/V1/Nats/Response.antt =====
-- `processResponse` and `getTimeout` of pkg/service/providers/nats/nats-provider.go. Durations are in
-- nanoseconds.
use spike_broker.Prelude.{
  none, some, List, [], ◌∷◌, ◌++◌, if◌then◌else◌, is_empty, Text, codes, text_eq,
}
use spike_broker.Prelude.Decimal.{ℤ, parse_int}
use spike_broker.Text.{split, has_prefix}
use spike_broker.Nats.Response.{timeout_prefix, Received, message, expired}
use spike_broker.V1.Request.{ErrorRequest, internal_error, error_invalid_params, error_timeout}

-- The results of `getTimeout`: nothing, a new timeout, or an error.
pub data Extension : Type 0 where
  no_extension : Extension
  extend : ℤ → Extension
  bad_timeout : ErrorRequest → Extension

-- The duration behind the colon. The global `ErrorInvalidParams` keeps the message that it gets here.
unfoldable pub read_timeout : Text → Extension
read_timeout t =
    if is_empty t
    then bad_timeout (record error_invalid_params { message = codes "Invalid timeout param " ++ t })
    else elim (parse_int t) [
      | none ↦ bad_timeout (internal_error (codes "strconv.ParseInt"))
      | some n ↦ extend n
    ]

unfoldable pub timeout_parts : List Text → Extension
timeout_parts (name ∷ t ∷ []) =
    if text_eq name (codes "timeout") then read_timeout t else no_extension
timeout_parts parts = no_extension

unfoldable pub get_timeout : Text → Extension
get_timeout resp =
    if has_prefix resp timeout_prefix then timeout_parts (split b':' resp) else no_extension

-- How the loop ends, if what has been received lets it end.
pub data Response : Type 0 where
  waiting : Response
  failed : ErrorRequest → Response
  payload : Text → Response

-- One message: an extension goes on with its timeout.
pub data Next : Type 0 where
  stop : Response → Next
  wait : ℤ → Next

unfoldable pub on_message : Text → Next
on_message resp = elim (get_timeout resp) [
  | bad_timeout e ↦ stop (failed e)
  | extend t ↦ wait t
  | no_extension ↦ stop (payload resp)
]

-- The loop over what is received in turn, with the timers that it sets.
unfoldable pub process_response : ℤ → List Received → List ℤ × Response
process_response t [] = (t ∷ [], waiting)
process_response t (expired ∷ rs) = (t ∷ [], failed error_timeout)
process_response t (message resp ∷ rs) = elim (on_message resp) [
  | stop r ↦ (t ∷ [], r)
  | wait t' ↦ let (timers, r) = process_response t' rs in (t ∷ timers, r)
]
