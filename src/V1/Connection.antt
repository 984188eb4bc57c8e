-- ===== src/V1/Connection.antt =====
-- pkg/route/socket: a WebSocket connection of version 1, and how its messages name a pattern. The
-- messages are those of version 2.
use spike_broker.Prelude.{
  ℕ, ◌⊎◌, Option, none, some, List, [], ◌∷◌, ◌++◌, if◌then◌else◌, Text, codes, text_eq,
}
use spike_broker.Text.{split, join}
use spike_broker.Rids.Pattern.{Any, nil, bytes}
use spike_broker.Broker.Message.{plain}
use spike_broker.Socket.Message.{WsMessage}
use spike_broker.Go.{Go, pure, raise, of_error, of_value}
use spike_broker.V1.Rids.{Pattern}
use spike_broker.V1.Auth.{AuthRid, HavePermissionRequest}
use spike_broker.V1.Request.{CallRequest, ErrorRequest, Codec, empty_request}
use spike_broker.V1.Endpoint.{pattern_from_endpoint}

-- What the handlers call of `request.Provider`. A Go error is its text; the data of an answer is its
-- JSON. A monitor is known by a number to the function that ends it.
pub record Provider (W : Type 0) : Type 0 where
  pub request : Pattern → CallRequest → Text → Go W (ErrorRequest ⊎ Text)
  pub publish : Pattern → CallRequest → Text → Go W (Option Text)
  pub monitor : Text → Pattern → (CallRequest → Go W (Unit {0})) → Go W (Text ⊎ ℕ)
  pub publish_raw : Text → Text → W → W

-- What a connection works with. `decode` is json.Unmarshal into an `interface{}`, and `write_json`
-- gives the text of the error if the message has not gone out.
pub record Peer (W : Type 0) : Type 0 where
  pub codec : Codec
  pub provider : Provider W
  pub auths : List (AuthRid W)
  pub decode : Text → Text ⊎ Any
  pub write_json : WsMessage → W → Option Text × W

-- `WSConnection` beside the state `W` of all that it talks to: its id and token, the monitors that a
-- goroutine ends with the connection's context, and the tokens of the goroutines that publish the
-- connected event.
pub record State (W : Type 0) : Type 0 where
  pub world : W
  pub id : Text
  pub token : Text
  pub monitors : List ℕ
  pub spawned : List Text

-- A call that does not see the connection.
abbrev pub outside : {W A : Type 0} → Go W A → Go (State W) A
outside m s = let (r, w) = m s.world in (r, record s { world = w })

-- `NewRequest`: bytes panic, and so does what cannot be marshalled.
unfoldable pub new_request : {W : Type 0} → Codec → Any → Go W CallRequest
new_request c (bytes b) = raise (of_value (codes "invalid data"))
new_request c nil = pure empty_request
new_request c x = elim (c.any_to_json x) [
  | none ↦ raise (of_error (plain (codes "json")))
  | some content ↦ pure (record empty_request { content = content })
]

-- The service and the endpoint of the client's text.
abbrev pub service_of : List Text → Text
service_of [] = []
service_of (x ∷ xs) = x

abbrev pub endpoint_of : List Text → Text
endpoint_of [] = []
endpoint_of (x ∷ xs) = join b'.' xs

-- The loop over the services: the first of that name.
unfoldable pub service_patterns : {W : Type 0} → Text → List (AuthRid W) → List Pattern
service_patterns service [] = []
service_patterns service (a ∷ as') =
    let rest = service_patterns service as' in
    if text_eq a.service service then a.patterns else rest

unfoldable pub named_pattern : {W : Type 0} → List (AuthRid W) → WsMessage → Option Pattern
named_pattern auths m =
    let values = split b'.' m.endpoint in
    pattern_from_endpoint (service_patterns (service_of values) auths) (endpoint_of values) m.verb

-- The permission that the authorizer is asked for.
unfoldable pub socket_permission : Text → Text → Pattern → HavePermissionRequest
socket_permission service verb p = record {
  service = service;
  endpoint = service ++ (b'.' ∷ p.endpoint);
  method = verb;
}

abbrev pub permission_json : Codec → HavePermissionRequest → Text
permission_json c p = c.permission_to_json p.service p.endpoint p.method

unfoldable pub socket_call : Codec → WsMessage → Pattern → Text → CallRequest
socket_call c m p token = record empty_request {
  content = permission_json c (socket_permission (service_of (split b'.' m.endpoint)) m.verb p);
  token = token;
}
