-- ===== src/Socket/Handlers.antt =====
-- v2/pkg/spike/socket/messagemonitor.go, messagepublish.go, messagerequest.go, messagetoken.go and
-- messagekeepalive.go: the handlers of the messages of a client.
pub mod Publishing
use spike_broker.Prelude.{
  ℕ, zero, suc, ◌+◌, ◌-◌, ◌*◌, ◌/◌, ◌%◌, ◌^◌, ◌≤◌, ◌<◌, ◌≡◌, refl, sym, ap, ◌∙◌, ◌≢◌, ◌↔◌, ◌⊎◌, inl,
  inr, Bool, true, false, not, ◌&&◌, ◌||◌, Option, none, some, List, [], ◌∷◌, ◌++◌, map, arith, ltb,
  leb, ◌==◌, if◌then◌else◌, ==_iff, Bool-cases, Option-cases, length, length-append, is_empty, drop,
  find, filter, drop_last, All, All-append, All-left, Text, codes, text_eq, text_eq_refl,
  text_eq_iff, text_eq_ne, Dict, lookup, insert, lookup-insert, contains,
}
use spike_broker.Rids.Pattern.{Pattern, Any, json, nil}
use spike_broker.Broker.Message.{
  ErrorMessage, GoError, of_message, plain, error_internal_server_error, error_invalid_params,
  error_status_forbidden, error_status_unauthorized, internal_error,
}
use spike_broker.Broker.Call.{Codec, Call, set_token, new_call}
use spike_broker.Broker.Provider
use spike_broker.Broker.Provider.{Specific, Reply, raw}
use spike_broker.Socket.Endpoint.{Lookup, found, failed, pattern_from_endpoint}
use spike_broker.Socket.Message.{
  WsMessage, specific_endpoint, type_response, State, Session, outside, gets, modify, get_handlers,
  get_events, MessageHandler, new_message_handler,
}
use spike_broker.Go.{Go, ◌>>=◌, ◌>>◌, pure, value, raise, of_value}

-- What a connection works with: the provider, the authenticator, the authorizer, and the
-- connection's writer, which reports whether the text went out.
pub record Peer (W : Type 0) : Type 0 where
  pub codec : Codec
  pub impl : Specific W
  pub validate_token : Text → Go W (Text × Bool)
  pub has_permission : Call → Go W Bool
  pub write_json : WsMessage → W → Bool × W

-- What the common first part of the handlers ends with.
pub data Prepared : Type 0 where
  rejected : ErrorMessage → Prepared
  ready : Pattern → Prepared

abbrev pub wrap : Option ErrorMessage → Option ErrorMessage
wrap none = none
wrap (some e) = some (internal_error (some (of_message e)))

abbrev pub stored_text : Option Text → Text
stored_text none = []
stored_text (some t) = t

abbrev pub write_error : ErrorMessage
write_error = internal_error (some (plain (codes "write")))

module _ {W : Type 0} (peer : Peer W) where
  abbrev pub set_session_token : Text → State W → State W
  set_session_token t s = record s { session = record s.session { token = t } }

  abbrev pub use_token : Text × Bool → Go (State W) (Option ErrorMessage)
  use_token (t, true) = modify (set_session_token t) >> pure none
  use_token (t, false) = pure (some error_status_unauthorized)

  -- A session token that is not empty is validated again, and replaced by the processed one.
  unfoldable pub refresh : Go (State W) (Option ErrorMessage)
  refresh s =
      if is_empty s.session.token
      then (value none, s)
      else (outside (peer.validate_token s.session.token) >>= use_token) s

  -- The call for the authorizer, with the session's token.
  abbrev pub permit : Pattern → Call → Go (State W) Prepared
  permit p m s =
      (outside (peer.has_permission (set_token s.session.token m)) >>= λ allowed.
      pure (if allowed then ready p else rejected error_status_forbidden))
        s

  abbrev pub authorize_found : Any → Lookup → Go (State W) Prepared
  authorize_found payload (failed e) = pure (rejected e)
  authorize_found payload (found p) = elim (new_call peer.codec p payload) [
    | none ↦ raise (of_value (codes "json"))
    | some m ↦ permit p m
  ]

  abbrev pub look_up :
      (Session → List Pattern) → WsMessage → Option ErrorMessage → Go (State W) Prepared
  look_up patterns m (some e) s = (value (rejected e), s)
  look_up patterns m none s =
      authorize_found m.payload (pattern_from_endpoint (patterns s.session) (specific_endpoint m)) s

  -- The first part of the handlers for monitor, publish and request messages.
  unfoldable pub prepare : (Session → List Pattern) → WsMessage → Go (State W) Prepared
  prepare patterns m = refresh >>= look_up patterns m

  abbrev pub if_ready :
      (Pattern → Go (State W) (Option ErrorMessage)) → Prepared → Go (State W) (Option ErrorMessage)
  if_ready k (rejected e) = pure (some e)
  if_ready k (ready p) = k p

  -- `ws.WriteJSON(m)`, with the given error where it fails.
  abbrev pub write : ErrorMessage → WsMessage → Go (State W) (Option ErrorMessage)
  write e m s =
      let (sent, w) = peer.write_json m s.world in
      (value (if sent then none else some e), record s { world = w })

  abbrev pub respond : WsMessage → Reply → Go (State W) (Option ErrorMessage)
  respond m r = elim r.error [
    | some e ↦ pure (some e)
    | none ↦
        write write_error (record m { kind = type_response; payload = json (stored_text r.stored) })
  ]

  unfoldable pub handle_request_message : WsMessage → Go (State W) (Option ErrorMessage)
  handle_request_message m =
      prepare get_handlers m
      >>= if_ready λ p s.
        (outside (Provider.request peer.codec peer.impl p m.payload raw (some s.session.token))
            >>= respond m)
          s

  abbrev pub publish_found : WsMessage → Pattern → Go (State W) (Option ErrorMessage)
  publish_found m p s =
      (outside (Provider.publish peer.codec peer.impl p m.payload (some s.session.token)) >>= λ e.
      pure (wrap e))
        s

  -- The error of the provider becomes an internal error.
  unfoldable pub handle_publish_message : WsMessage → Go (State W) (Option ErrorMessage)
  handle_publish_message m = prepare get_handlers m >>= if_ready (publish_found m)

  abbrev pub respond_monitor :
      WsMessage → Option ErrorMessage × ℕ → Go (State W) (Option ErrorMessage)
  respond_monitor m (some e, unsubscribe) = pure (some e)
  respond_monitor m (none, unsubscribe) =
      write write_error (record m { kind = type_response; payload = nil })

  -- The connection's id is the group; what is received goes through `handle_ws_event`.
  unfoldable pub handle_monitor_message : WsMessage → Go (State W) (Option ErrorMessage)
  handle_monitor_message m =
      prepare get_events m
      >>= if_ready λ p s.
        (outside (Provider.monitor peer.codec peer.impl s.session.id p (some s.session.token))
            >>= respond_monitor m)
          s

  -- The session takes the token and the id of the message. The first token of a session also
  -- starts the publication of the connected event.
  abbrev pub take_token : WsMessage → Text × Bool → Go (State W) (Option ErrorMessage)
  take_token m (t, false) s = (value (some error_status_unauthorized), s)
  take_token m (t, true) s =
      let first = is_empty s.session.token in
      let s' = record s { session = record s.session { id = m.id; token = t } } in
      let (sent, w) = peer.write_json (record m { token = t }) s.world in
      if sent
      then (
        value none,
        record s' { world = w; spawned = if first then t ∷ s.spawned else s.spawned },
      )
      else (value (some write_error), record s' { world = w })

  unfoldable pub handle_token_message : WsMessage → Go (State W) (Option ErrorMessage)
  handle_token_message m =
      if is_empty m.token
      then pure (some error_invalid_params)
      else outside (peer.validate_token m.token) >>= take_token m

  unfoldable pub handle_keep_alive : WsMessage → Go (State W) (Option ErrorMessage)
  handle_keep_alive m = write error_internal_server_error m

  -- `NewMessageHandler(&wsMsg).Handle(c)`.
  unfoldable pub handle : WsMessage → Go (State W) (Option ErrorMessage)
  handle m = elim (new_message_handler m) [
    | MessageHandler.monitor ↦ handle_monitor_message m
    | MessageHandler.request ↦ handle_request_message m
    | MessageHandler.publish ↦ handle_publish_message m
    | MessageHandler.token ↦ handle_token_message m
    | MessageHandler.keep_alive ↦ handle_keep_alive m
    | MessageHandler.ignore ↦ pure none
  ]
