-- ===== src/Api/Events.antt =====
-- v2/pkg/spike/api-service-impl.go: the checks that a service's events are asked for before they
-- are monitored or published, `validateMonitor` and `validatePublish`.
pub mod Grants
use spike_broker.Prelude.{
  ℕ, zero, suc, ◌+◌, ◌-◌, ◌*◌, ◌/◌, ◌%◌, ◌^◌, ◌≤◌, ◌<◌, ◌≡◌, refl, sym, ap, ◌∙◌, ◌≢◌, ◌↔◌, ◌⊎◌, inl,
  inr, Bool, true, false, not, ◌&&◌, ◌||◌, Option, none, some, List, [], ◌∷◌, ◌++◌, map, arith, ltb,
  leb, ◌==◌, if◌then◌else◌, ==_iff, Bool-cases, Option-cases, length, length-append, is_empty, drop,
  find, filter, drop_last, All, All-append, All-left, Text, codes, text_eq, text_eq_refl,
  text_eq_iff, text_eq_ne, Dict, lookup, insert, lookup-insert, contains,
}
use spike_broker.Rids.Pattern.{Pattern, endpoint_name}
use spike_broker.Broker.Message.{ErrorMessage, of_message, GoError, internal_error, plain}
use spike_broker.Broker.Call.{
  Codec, Call, Decoded, malformed, no_method, decoded, access_denied, access_granted,
  new_call_from_json, new_access, ok, call_error,
}
use spike_broker.Go.{of_value, Go, ◌>>=◌, ◌>>◌, pure, raise, of_value}
use spike_broker.Api.Request.{Env, AccessHandler, Subscription}

-- `broker.Event`.
pub record Event (W : Type 0) : Type 0 where
  pub resource : Pattern
  pub publish_validators : List (AccessHandler W)
  pub monitor_validators : List (AccessHandler W)

-- The two checks differ in the validators that they take from an event.
pub data Check : Type 0 where
  of_monitor of_publish : Check

abbrev pub validators_of : {W : Type 0} → Check → Event W → List (AccessHandler W)
validators_of of_monitor e = e.monitor_validators
validators_of of_publish e = e.publish_validators

-- The inner loop: it stops as soon as the access holds an error.
unfoldable pub run_all : {W : Type 0} → List (AccessHandler W) → Call → Go W Call
run_all [] access = pure access
run_all (v ∷ vs) access =
    let rest = run_all vs in v access >>= λ a. elim a.err [ some e ↦ pure a | none ↦ rest a ]

unfoldable pub run_event : {W : Type 0} → List (AccessHandler W) → Call → Go W Call
run_event [] access = pure (access_granted access)
run_event (v ∷ vs) access = run_all (v ∷ vs) access

abbrev pub undeclared : Pattern → GoError
undeclared p = of_message (
    internal_error (
      some
        (plain (codes "endpoint " ++ (endpoint_name p ++ codes " not declared on Events arrays")))))

-- The outer loop: the first event whose generic name is that of the pattern decides.
unfoldable pub run_events : {W : Type 0} → Check → List (Event W) → Pattern → Call → Go W Call
run_events k [] p access = pure (access_denied (some (undeclared p)) access)
run_events k (e ∷ es) p access =
    let rest = run_events k es p access in
    if text_eq (endpoint_name e.resource) (endpoint_name p)
    then run_event (validators_of k e) access
    else rest

-- `validateMonitor` and `validatePublish`. A service that declares no events is `none`. The name
-- of a pattern without a method panics: where there are events, in the comparison with the first,
-- and where the list is empty, in the text of the error.
unfoldable pub validate : {W : Type 0} → Codec → Check → Option (List (Event W)) → Call → Go W Call
validate c k events access = elim (c.pattern_from_json access.raw_data) [
  | malformed ↦ pure (
      access_denied
        (some
          (of_message (internal_error (some (plain (codes "invalid rids.Pattern on payload"))))))
        access)
  | no_method ↦ elim events [
    | none ↦ pure (
        access_denied
          (some
            (of_message (internal_error (some (plain (codes "service does not declare events"))))))
          access)
    | some es ↦ raise (of_value (codes "cannot call EndpointName withou method defined"))
  ]
  | decoded p ↦ elim events [
    | none ↦ pure (
        access_denied
          (some
            (of_message (internal_error (some (plain (codes "service does not declare events"))))))
          access)
    | some es ↦ run_events k es p access
  ]
]

module _ {W : Type 0} (env : Env W) where
  -- What the handler of a validating request answers.
  abbrev pub answer_check : Call → Call → Go W (Unit {0})
  answer_check m access = elim access.err [
    | some e ↦ call_error env.codec env.send env.caller m (some (of_message e))
    | none ↦ ok env.codec env.send m none
  ]

  -- `eventHandlerForValidation` of `StartService`: a payload that is no call is ignored.
  unfoldable pub event_handler :
      Check → Option (List (Event W)) → Pattern → Text → Text → Go W (Unit {0})
  event_handler k events resource payload reply_endpoint =
      elim (new_call_from_json env.codec payload resource reply_endpoint) [
        | none ↦ pure tt
        | some m ↦ validate env.codec k events (new_access m) >>= answer_check m
      ]
