-- ===== src/Nats/Response.antt =====
-- v2/pkg/broker/providers/nats/provider.go: `processResponse` and `getTimeout`, and the message
-- that `Timeout` of v2/pkg/broker/callbase.go sends. Durations are in nanoseconds.
pub mod Waiting
use spike_broker.Prelude.{
  ℕ, zero, suc, ◌+◌, ◌-◌, ◌*◌, ◌/◌, ◌%◌, ◌^◌, ◌≤◌, ◌<◌, ◌≡◌, refl, sym, ap, ◌∙◌, ◌≢◌, ◌↔◌, ◌⊎◌, inl,
  inr, Bool, true, false, not, ◌&&◌, ◌||◌, Option, none, some, List, [], ◌∷◌, ◌++◌, map, arith, ltb,
  leb, ◌==◌, if◌then◌else◌, ==_iff, Bool-cases, Option-cases, length, length-append, is_empty, drop,
  find, filter, drop_last, All, All-append, All-left, Text, codes, text_eq, text_eq_refl,
  text_eq_iff, text_eq_ne, Dict, lookup, insert, lookup-insert, contains,
}
use spike_broker.Prelude.Decimal.{ℤ, pos, negsuc, digits, parse_int}
use spike_broker.Text.{split, has_prefix}
use spike_broker.Broker.Message.{
  ErrorMessage, new_invalid_params_error, error_service_unavailable, error_timeout, internal_error,
  plain,
}
use spike_broker.Broker.Call.{Call}
use spike_broker.Go.{Go, act, pure}

abbrev pub min_timeout : ℕ
min_timeout = 100000000

-- At least 100 ms.
unfoldable pub clamp_timeout : ℤ → ℕ
clamp_timeout (negsuc n) = min_timeout
clamp_timeout (pos n) = if leb n min_timeout then min_timeout else n

abbrev pub timeout_prefix : Text
timeout_prefix = codes "timeout:"

-- `fmt.Sprintf("timeout:%d", int(timeout))`.
unfoldable pub timeout_message : ℤ → Text
timeout_message t = timeout_prefix ++ digits (clamp_timeout t)

-- The method `Timeout` of a call.
unfoldable pub timeout : {W : Type 0} → (Text → Text → W → W) → Call → ℤ → Go W (Unit {0})
timeout send m t =
    if is_empty m.reply_str then pure tt else act (send m.reply_str (timeout_message t))

-- The results of `getTimeout`: nothing, a new timeout, or an error.
pub data Extension : Type 0 where
  no_extension : Extension
  extend : ℤ → Extension
  bad_timeout : ErrorMessage → Extension

-- The duration behind the colon, by strconv.ParseInt.
unfoldable pub read_timeout : Text → Extension
read_timeout t =
    if is_empty t
    then bad_timeout (new_invalid_params_error (codes "Invalid timeout param " ++ t))
    else elim (parse_int t) [
      | none ↦ bad_timeout (internal_error (some (plain (codes "strconv.ParseInt"))))
      | some n ↦ extend n
    ]

unfoldable pub timeout_parts : List Text → Extension
timeout_parts (name ∷ t ∷ []) =
    if text_eq name (codes "timeout") then read_timeout t else no_extension
timeout_parts parts = no_extension

unfoldable pub get_timeout : Text → Extension
get_timeout resp =
    if has_prefix resp timeout_prefix then timeout_parts (split b':' resp) else no_extension

-- What the `select` of the loop receives: a message, or the end of the timer.
pub data Received : Type 0 where
  message : Text → Received
  expired : Received

-- How the loop ends, if what has been received lets it end.
pub data Response : Type 0 where
  waiting : Response
  failed : ErrorMessage → Response
  payload : Text → Response

-- One message: an extension goes on with its timeout.
pub data Next : Type 0 where
  stop : Response → Next
  wait : ℤ → Next

unfoldable pub on_message : Text → Next
on_message resp = elim (get_timeout resp) [
  | bad_timeout e ↦ stop (failed e)
  | extend t ↦ wait t
  | no_extension ↦ stop (if is_empty resp then failed error_service_unavailable else payload resp)
]

-- The loop over what is received in turn, with the timers that it sets.
unfoldable pub process_response : ℤ → List Received → List ℤ × Response
process_response t [] = (t ∷ [], waiting)
process_response t (expired ∷ rs) = (t ∷ [], failed error_timeout)
process_response t (message resp ∷ rs) = elim (on_message resp) [
  | stop r ↦ (t ∷ [], r)
  | wait t' ↦ let (timers, r) = process_response t' rs in (t ∷ timers, r)
]
