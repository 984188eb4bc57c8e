-- ===== src/Tests/Api.antt =====
-- Requests and checks at the toy service.
use spike_broker.Prelude.{◌≡◌, refl, ◌↔◌, ◌⊎◌, none, some, [], ◌∷◌, codes, text_eq}
use spike_broker.Broker.Message.{error_status_unauthorized, trace, trace_at, err_to_traceable}
use spike_broker.Broker.Call.{Call, access_denied, call_error, error, reply}
use spike_broker.Api.Request.{
  Subscription, handle_request, AccessHandler, serve, authorize, check_permission,
}
use spike_broker.Api.Request.Access.{handle_request-decides, Runs, Denied}
use spike_broker.Api.Events.{Event, of_monitor, validate}
use spike_broker.Api.Events.Grants.{IsGranted, validate-grants_iff}
use spike_broker.Go.{value, of_value, pure, raise}
use spike_broker.Tests.World.{Mail, item, sold, codec, call_with, env}

abbrev deny : AccessHandler Mail
deny a = pure (access_denied none a)

abbrev call : Call
call = call_with (codes "inbox") (codes "x")

-- A handler that panics, behind a valid token.
abbrev broken : Subscription Mail
broken = record { resource = item; handler = λ m. raise (of_value (codes "boom")); validators = [] }

handle_request-decides_example :
    Runs env item (deny ∷ []) call call [] ⊎ Denied env item (deny ∷ []) call call []
handle_request-decides_example = handle_request-decides env item (deny ∷ []) call call []

-- A token that the authenticator does not know.
unknown_token :
    (handle_request env broken (record call { token = codes "you" }) call []).1
    ≡ (codes "inbox", env.codec.error_to_json error_status_unauthorized) ∷ []
unfolding handle_request serve authorize check_permission text_eq call_error error reply trace
    trace_at err_to_traceable
unknown_token = refl

abbrev event : Event Mail
event = record { resource = sold; publish_validators = deny ∷ []; monitor_validators = [] }

validate-grants_iff_example :
    ((b : Call) × (validate codec of_monitor (some (event ∷ [])) call [] ≡ (value b, []))
      × (b.err ≡ none))
    ↔ IsGranted codec of_monitor (some (event ∷ [])) call [] []
validate-grants_iff_example =
    validate-grants_iff codec of_monitor (some (event ∷ [])) call [] [] refl
