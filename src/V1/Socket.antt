-- ===== src/V1/Socket.antt =====
-- pkg/route/socket: the handlers of the messages of a WebSocket client of version 1. The messages
-- and the choice of a handler are those of version 2.
pub mod Served
pub mod Permission
pub mod Permitted
pub mod Loop
use spike_broker.Prelude.{
  ℕ, zero, suc, ◌+◌, ◌-◌, ◌*◌, ◌/◌, ◌%◌, ◌^◌, ◌≤◌, ◌<◌, ◌≡◌, refl, sym, ap, ◌∙◌, ◌≢◌, ◌↔◌, ◌⊎◌, inl,
  inr, Bool, true, false, not, ◌&&◌, ◌||◌, Option, none, some, List, [], ◌∷◌, ◌++◌, map, arith, ltb,
  leb, ◌==◌, if◌then◌else◌, ==_iff, Bool-cases, Option-cases, length, length-append, is_empty, drop,
  find, filter, drop_last, All, All-append, All-left, Text, codes, text_eq, text_eq_refl,
  text_eq_iff, text_eq_ne, Dict, lookup, insert, lookup-insert, contains,
}
use spike_broker.Text.{split, join}
use spike_broker.Rids.Pattern.{Any, nil, str, bytes}
use spike_broker.Rids.Verb
use spike_broker.Broker.Message.{plain}
use spike_broker.Socket.Message.{
  WsMessage, type_response, type_publish, MessageHandler, new_message_handler,
}
use spike_broker.Go.{Go, pure, raise, of_error, of_value, ◌>>=◌, ◌>>◌, value}
use spike_broker.V1.Rids.{Pattern, validate_token}
use spike_broker.V1.Auth.{AuthRid, HavePermissionRequest}
use spike_broker.V1.Request.{
  CallRequest, ErrorRequest, Codec, empty_request, named_error, internal_error,
  error_status_unauthorized, error_status_forbidden, error_internal_server_error, ok, call_error,
}
use spike_broker.V1.Connection.{
  Provider, Peer, State, outside, new_request, named_pattern, socket_call,
}

module _ {W : Type 0} (peer : Peer W) where
  abbrev pub if_allowed : Pattern → Bool → Go (State W) (ErrorRequest ⊎ Pattern)
  if_allowed p true = pure (inr p)
  if_allowed p false = pure (inl error_status_forbidden)

  -- The first authenticator decides on an endpoint with authentication.
  unfoldable pub permit :
      List (AuthRid W) → WsMessage → Pattern → Go (State W) (ErrorRequest ⊎ Pattern)
  permit [] m p s = (value (inr p), s)
  permit (a ∷ as') m p s =
      if p.authenticated
      then (outside (a.auth.user_have_permission (socket_call peer.codec m p s.token))
            >>= if_allowed p)
          s
      else (value (inr p), s)

  abbrev pub by_name : WsMessage → Option Pattern → Go (State W) (ErrorRequest ⊎ Pattern)
  by_name m none = pure (inl error_status_forbidden)
  by_name m (some p) =
      if text_eq m.verb Verb.internal
      then pure (inl error_status_forbidden)
      else permit peer.auths m p

  -- The first part of the handlers of requests, publications and monitors: an error, or the pattern.
  unfoldable pub prepare : WsMessage → Go (State W) (ErrorRequest ⊎ Pattern)
  prepare m = by_name m (named_pattern peer.auths m)

  abbrev pub if_ready :
      (Pattern → Go (State W) (Option ErrorRequest))
      → ErrorRequest ⊎ Pattern
      → Go (State W) (Option ErrorRequest)
  if_ready k (inl e) = pure (some e)
  if_ready k (inr p) = k p

  abbrev pub wrap : Option Text → Option ErrorRequest
  wrap none = none
  wrap (some text) = some (internal_error text)

  abbrev pub write : WsMessage → Go W (Option Text)
  write m w = let (e, w') = peer.write_json m w in (value e, w')

  abbrev pub respond_with : WsMessage → Option Text → Go (State W) (Option ErrorRequest)
  respond_with m none = pure (some (internal_error (codes "json")))
  respond_with m (some text) =
      outside (write (record m { kind = type_response; payload = str text })) >>= λ e. pure (wrap e)

  -- The data is decoded by `Request` and encoded again.
  abbrev pub respond_data : WsMessage → Text ⊎ Any → Go (State W) (Option ErrorRequest)
  respond_data m (inl text) = pure (some (named_error text 500))
  respond_data m (inr x) = respond_with m (peer.codec.any_to_json x)

  abbrev pub respond : WsMessage → ErrorRequest ⊎ Text → Go (State W) (Option ErrorRequest)
  respond m (inl e) = pure (some e)
  respond m (inr content) = respond_data m (peer.decode content)

  abbrev pub send_request : WsMessage → Pattern → CallRequest → Go (State W) (Option ErrorRequest)
  send_request m p call s = (outside (peer.provider.request p call s.token) >>= respond m) s

  unfoldable pub handle_request_message : WsMessage → Go (State W) (Option ErrorRequest)
  handle_request_message m =
      prepare m >>= if_ready (λ p. new_request peer.codec m.payload >>= send_request m p)

  abbrev pub send_publish : Pattern → CallRequest → Go (State W) (Option ErrorRequest)
  send_publish p call s = (outside (peer.provider.publish p call s.token) >>= λ e. pure (wrap e)) s

  unfoldable pub handle_publish_message : WsMessage → Go (State W) (Option ErrorRequest)
  handle_publish_message m =
      prepare m >>= if_ready (λ p. new_request peer.codec m.payload >>= send_publish p)

  -- What the client gets of an event.
  abbrev pub event_message : WsMessage → CallRequest → WsMessage
  event_message m r = record {
    id = m.id;
    kind = type_publish;
    endpoint = m.endpoint;
    verb = [];
    token = [];
    query = [];
    payload = str r.content;
  }

  abbrev pub after_event : CallRequest → Option Text → Go W (Unit {0})
  after_event r (some text) = call_error peer.codec peer.provider.publish_raw r text []
  after_event r none = ok peer.codec peer.provider.publish_raw r none

  -- `localHandler`.
  unfoldable pub local_handler : WsMessage → CallRequest → Go W (Unit {0})
  local_handler m r = write (event_message m r) >>= after_event r

  abbrev pub set_token : Text → State W → State W
  set_token t s = record s { token = t }

  abbrev pub take_refreshed : Option Text → Go (State W) (Option ErrorRequest)
  take_refreshed none s = (value (some (named_error (codes "json") 500)), s)
  take_refreshed (some t) s = (value none, set_token t s)

  abbrev pub refreshed : ErrorRequest ⊎ Text → Go (State W) (Option ErrorRequest)
  refreshed (inl e) = pure (some e)
  refreshed (inr content) = take_refreshed (peer.codec.token_from_json content)

  -- A session token that is not empty is validated again, and replaced by the processed one.
  unfoldable pub refresh : Go (State W) (Option ErrorRequest)
  refresh s =
      if is_empty s.token
      then (value none, s)
      else (outside (peer.provider.request validate_token empty_request s.token) >>= refreshed) s

  abbrev pub keep_monitor : Text ⊎ ℕ → Go (State W) (Option ErrorRequest)
  keep_monitor (inl text) s = (value (some (internal_error text)), s)
  keep_monitor (inr unsubscribe) s = (value none, record s { monitors = unsubscribe ∷ s.monitors })

  abbrev pub send_monitor : WsMessage → Pattern → Go (State W) (Option ErrorRequest)
  send_monitor m p s = (outside (peer.provider.monitor s.id p (local_handler m)) >>= keep_monitor) s

  abbrev pub if_fresh : WsMessage → Option ErrorRequest → Go (State W) (Option ErrorRequest)
  if_fresh m (some e) = pure (some e)
  if_fresh m none = prepare m >>= if_ready (send_monitor m)

  unfoldable pub handle_monitor_message : WsMessage → Go (State W) (Option ErrorRequest)
  handle_monitor_message m = refresh >>= if_fresh m

  -- The session takes the token and the id of the message; whether the answer goes out is not looked
  -- at. The first token of a session also starts the publication of the connected event.
  abbrev pub take_token : WsMessage → Option Text → Go (State W) (Option ErrorRequest)
  take_token m none s = (value (some error_status_unauthorized), s)
  take_token m (some t) s = (
    value none,
    record s {
      world = (peer.write_json (record m { token = t }) s.world).1;
      id = m.id;
      token = t;
      spawned = if is_empty s.token then t ∷ s.spawned else s.spawned;
    },
  )

  abbrev pub validated : WsMessage → ErrorRequest ⊎ Text → Go (State W) (Option ErrorRequest)
  validated m (inl e) = pure (some error_status_unauthorized)
  validated m (inr content) = take_token m (peer.codec.token_from_json content)

  unfoldable pub handle_token_message : WsMessage → Go (State W) (Option ErrorRequest)
  handle_token_message m =
      outside (peer.provider.request validate_token empty_request m.token) >>= validated m

  abbrev pub echoed : Option Text → Option ErrorRequest
  echoed none = none
  echoed (some text) = some error_internal_server_error

  unfoldable pub handle_keep_alive : WsMessage → Go (State W) (Option ErrorRequest)
  handle_keep_alive m = outside (write m) >>= λ e. pure (echoed e)

  -- `NewMessageHandler(&wsMsg).Handle(c)`.
  unfoldable pub handle : WsMessage → Go (State W) (Option ErrorRequest)
  handle m = elim (new_message_handler m) [
    | MessageHandler.monitor ↦ handle_monitor_message m
    | MessageHandler.request ↦ handle_request_message m
    | MessageHandler.publish ↦ handle_publish_message m
    | MessageHandler.token ↦ handle_token_message m
    | MessageHandler.keep_alive ↦ handle_keep_alive m
    | MessageHandler.ignore ↦ pure none
  ]
