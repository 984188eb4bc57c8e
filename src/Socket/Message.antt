-- ===== src/Socket/Message.antt =====
-- v2/pkg/spike/socket/message.go and connection.go: the messages of a WebSocket connection, and
-- the state of the connection.
use spike_broker.Prelude.{Bool, ◌||◌, List, ◌∷◌, ◌++◌, if◌then◌else◌, filter, Text, codes, text_eq}
use spike_broker.Rids.Verb
use spike_broker.Rids.Pattern.{Pattern, Any, method}
use spike_broker.Go.{Go, value}

-- A `WSMessageType` is a Go string.
abbrev pub type_request : Text
type_request = codes "request"

abbrev pub type_response : Text
type_response = codes "response"

abbrev pub type_publish : Text
type_publish = codes "publish"

abbrev pub type_subscribe : Text
type_subscribe = codes "subscribe"

abbrev pub type_monitor : Text
type_monitor = codes "monitor"

abbrev pub type_unsubscribe : Text
type_unsubscribe = codes "unsubscribe"

abbrev pub type_token : Text
type_token = codes "token"

abbrev pub type_error : Text
type_error = codes "error"

abbrev pub type_keep_alive : Text
type_keep_alive = codes "keepalive"

pub record WsMessage : Type 0 where
  pub id : Text
  pub kind : Text
  pub endpoint : Text
  pub verb : Text
  pub token : Text
  pub query : Text
  pub payload : Any

-- `SpecificEndpoint`.
abbrev pub specific_endpoint : WsMessage → Text
specific_endpoint m = m.endpoint ++ (b'.' ∷ m.verb)

-- The handlers that `NewMessageHandler` chooses from.
pub data MessageHandler : Type 0 where
  monitor request publish token keep_alive ignore : MessageHandler

-- A case of the Go switch without a body does nothing, as does a type that is not listed.
unfoldable pub new_message_handler : WsMessage → MessageHandler
new_message_handler m =
    if text_eq m.kind type_subscribe
    then ignore
    else if text_eq m.kind type_monitor
    then monitor
    else if text_eq m.kind type_request
    then request
    else if text_eq m.kind type_error
    then ignore
    else if text_eq m.kind type_response
    then ignore
    else if text_eq m.kind type_publish
    then publish
    else if text_eq m.kind type_unsubscribe
    then ignore
    else if text_eq m.kind type_token
    then token
    else if text_eq m.kind type_keep_alive
    then keep_alive
    else ignore

-- What the handlers change in a `wsConnection`, and the patterns that it serves.
pub record Session : Type 0 where
  pub id : Text
  pub token : Text
  pub handlers : List Pattern

abbrev pub is_rest : Pattern → Bool
is_rest p =
    text_eq (method p) Verb.get
    || text_eq (method p) Verb.post
    || text_eq (method p) Verb.put
    || text_eq (method p) Verb.patch
    || text_eq (method p) Verb.delete

abbrev pub is_event : Pattern → Bool
is_event p = text_eq (method p) Verb.event

unfoldable pub get_handlers : Session → List Pattern
get_handlers s = filter is_rest s.handlers

unfoldable pub get_events : Session → List Pattern
get_events s = filter is_event s.handlers

-- The connection beside the state `W` of all that it talks to. `spawned` holds the session tokens
-- of the goroutines that publish the connected event.
pub record State (W : Type 0) : Type 0 where
  pub world : W
  pub session : Session
  pub spawned : List Text

-- A call that does not see the connection.
abbrev pub outside : {W A : Type 0} → Go W A → Go (State W) A
outside m s = let (r, w) = m s.world in (r, record s { world = w })

abbrev pub gets : {W A : Type 0} → (State W → A) → Go (State W) A
gets f s = (value (f s), s)

abbrev pub modify : {W : Type 0} → (State W → State W) → Go (State W) (Unit {0})
modify f s = (value tt, f s)
