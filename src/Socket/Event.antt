-- ===== src/Socket/Event.antt =====
-- v2/pkg/spike/socket/request-handler.go and the `localHandler` of messagemonitor.go: what becomes
-- of an event that a connection monitors.
use spike_broker.Prelude.{
  ◌≡◌, refl, ap, ◌∙◌, Bool, true, false, Option, none, some, [], arith, Text, codes,
}
use spike_broker.Rids.Pattern.{Pattern, json}
use spike_broker.Broker.Message.{plain, error_text}
use spike_broker.Broker.Call.{Call, ok, call_error, new_call_from_json, new_access, error, reply}
use spike_broker.Go.{
  Go, Exit, value, panic, PanicValue, of_error, of_value, recovering, settle, act, ◌>>◌, pure,
}
use spike_broker.Api.Request.{
  Env, Subscription, send_error, panic_error, validate_and_run, run_validators,
}
use spike_broker.Socket.Message.{WsMessage, type_publish}
use spike_broker.Socket.Handlers.{Peer}

abbrev panic_text : PanicValue → Text
panic_text (of_error e) = error_text e
panic_text (of_value v) = v

module _ {W : Type 0} (env : Env W) where
  -- The deferred function of `handleWSEvent`.
  unfoldable pub on_event_panic : Pattern → Call → PanicValue → Go W (Unit {0})
  on_event_panic p m r = act (env.log (panic_text r)) >> send_error env m (panic_error p r)

  unfoldable pub on_call : Subscription W → Option Call → Go W (Unit {0})
  on_call sub none = pure tt
  on_call sub (some m) =
      recovering (on_event_panic sub.resource m) (validate_and_run env sub (new_access m) m)

  -- `handleWSEvent`: an event passes the validators of its subscription, but neither an
  -- authenticator nor an authorizer. A payload that is no call is ignored.
  unfoldable pub handle_ws_event : Subscription W → Text → Text → Go W (Unit {0})
  handle_ws_event sub payload reply_endpoint =
      on_call sub (new_call_from_json env.codec payload sub.resource reply_endpoint)

  module _ (peer : Peer W) where
    -- The message that carries an event to the client who sent the monitor message `m`.
    unfoldable pub event_message : WsMessage → Call → WsMessage
    event_message m c = record {
      id = m.id;
      kind = type_publish;
      endpoint = m.endpoint;
      verb = [];
      token = [];
      query = [];
      payload = json c.raw_data;
    }

    abbrev pub after_write : Call → Bool → Go W (Unit {0})
    after_write c false = call_error env.codec env.send env.caller c (some (plain (codes "write")))
    after_write c true = ok env.codec env.send c none

    -- `localHandler`.
    unfoldable pub local_handler : WsMessage → Call → Go W (Unit {0})
    local_handler m c w =
        let (sent, w') = peer.write_json (event_message m c) w in after_write c sent w'

    -- The subscription of a monitor message.
    unfoldable pub local_subscription : WsMessage → Pattern → Subscription W
    local_subscription m p = record { resource = p; handler = local_handler m; validators = [] }

  settle-event :
      (p : Pattern) (m : Call) (r : Exit (Unit {0}) × W)
      → (settle (on_event_panic p m) r).0 ≡ value tt
  unfolding on_event_panic call_error error reply
  settle-event p m (value a, u) = refl
  settle-event p m (panic q, u) = ground arith

  on_call-value : (sub : Subscription W) (o : Option Call) (w : W) → (on_call sub o w).0 ≡ value tt
  unfolding on_call
  on_call-value sub none w = refl
  on_call-value sub (some m) w =
      settle-event sub.resource m (validate_and_run env sub (new_access m) m w)

  -- No panic of a validator or of the handler leaves `handleWSEvent`.
  pub handle_ws_event-value :
      (sub : Subscription W) (payload reply_endpoint : Text) (w : W)
      → (handle_ws_event sub payload reply_endpoint w).0 ≡ value tt
  unfolding handle_ws_event
  handle_ws_event-value sub payload reply_endpoint w =
      on_call-value sub (new_call_from_json env.codec payload sub.resource reply_endpoint) w

  after_write-silent :
      (peer : Peer W) (c : Call) (sent : Bool) (w : W)
      → c.reply_str ≡ []
      → after_write peer c sent w ≡ (value tt, w)
  unfolding ok call_error error reply
  after_write-silent peer c false w silent = ground arith
  after_write-silent peer c true w silent = ground arith

  on_call-delivers :
      (peer : Peer W) (m : WsMessage) (p : Pattern) (c : Call) (w : W)
      → c.reply_str ≡ []
      → on_call (local_subscription peer m p) (some c) w
        ≡ (value tt, (peer.write_json (event_message peer m c) w).1)
  unfolding on_call local_subscription validate_and_run run_validators local_handler
  on_call-delivers peer m p c w silent =
      let (sent, w') = peer.write_json (event_message peer m c) w in
      ap (settle (on_event_panic p c)) (after_write-silent peer c sent w' silent)

  -- An event that carries no reply endpoint reaches the client of a monitored connection as one
  -- message with the id and the endpoint of the monitor message and the data of the event; nothing
  -- is sent back to the publisher, whether or not the message could be written.
  pub handle_ws_event-delivers :
      (peer : Peer W) (m : WsMessage) (p : Pattern) (payload : Text) (c : Call) (w : W)
      → new_call_from_json env.codec payload p [] ≡ some c
      → c.reply_str ≡ []
      → handle_ws_event (local_subscription peer m p) payload [] w
        ≡ (value tt, (peer.write_json (event_message peer m c) w).1)
  unfolding handle_ws_event local_subscription
  handle_ws_event-delivers peer m p payload c w decoded silent =
      ap (λ (o : Option Call). on_call (local_subscription peer m p) o w) decoded
      ∙ on_call-delivers peer m p c w silent
