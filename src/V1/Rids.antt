-- ===== src/V1/Rids.antt =====
-- pkg/rids/base.go and pkg/rids/route.go: the methods and patterns of version 1.
use spike_broker.Prelude.{
  Bool, true, false, Option, none, List, [], ◌∷◌, ◌++◌, if◌then◌else◌, is_empty, drop, Text, codes,
  Dict, insert, some,
}
use spike_broker.Text.{split, has_byte, replace_first}
use spike_broker.Rids.Verb

-- `method`.
pub record Method : Type 0 where
  pub label : Text
  pub service : Text
  pub service_label : Text
  pub endpoint : Text
  pub auth : Bool
  pub params : Dict Text
  pub endpoint_no_params : Text
  pub persistent : Bool

-- `Pattern`; its query parameters are an encoded text.
pub record Pattern : Type 0 where
  pub label : Text
  pub service : Text
  pub service_label : Text
  pub endpoint : Text
  pub method : Text
  pub authenticated : Bool
  pub endpoint_no_params : Text
  pub params : Dict Text
  pub query_params : Option Text
  pub made_by : Method

-- The loop of `NewMethod` over the parts, for one parameter.
unfoldable pub bind_part : Text → List Text → Dict Text × Text → Dict Text × Text
bind_part param [] (ps, endpoint) = (ps, endpoint)
bind_part param (rep ∷ sp) (ps, endpoint) =
    let rest = bind_part param sp (ps, endpoint) in
    if has_byte b'$' rep
    then (insert (drop 1 rep) param ps, replace_first endpoint rep param)
    else rest

-- The loop over the parameters; the parts are read anew after each replacement.
unfoldable pub bind_each : List Text → Dict Text × Text → Dict Text × Text
bind_each [] (ps, endpoint) = (ps, endpoint)
bind_each (param ∷ params) (ps, endpoint) =
    bind_each params (bind_part param (split b'.' endpoint) (ps, endpoint))

-- `NewMethod` of a rid with its name and label.
unfoldable pub new_method : Text → Text → Text → Text → List Text → Method
new_method name rid_label label endpoint params =
    let (ps, bound) = bind_each params ([], endpoint) in
    record {
      label = label;
      service = name;
      service_label = rid_label;
      endpoint = bound;
      auth = true;
      params = ps;
      endpoint_no_params = endpoint;
      persistent = false;
    }

unfoldable pub pattern_with : Text → Bool → Method → Pattern
pattern_with verb authenticated m = record {
  label = m.label;
  service = m.service;
  service_label = m.service_label;
  endpoint = m.endpoint;
  method = verb;
  authenticated = authenticated;
  endpoint_no_params = m.endpoint_no_params;
  params = m.params;
  query_params = none;
  made_by = m;
}

-- `register`, on which Get to Delete are based.
abbrev pub register : Text → Method → Pattern
register verb m = pattern_with verb m.auth m

-- `Internal` and `Event` need no token.
abbrev pub make_internal : Method → Pattern
make_internal m = pattern_with Verb.internal false m

abbrev pub make_event : Method → Pattern
make_event m = pattern_with Verb.event false m

-- `NoAuth` and `Persistent` of a method.
abbrev pub no_auth : Method → Method
no_auth m = record m { auth = false }

abbrev pub make_persistent : Method → Method
make_persistent m = record m { persistent = true }

-- `ByID` of a rid with its name and label.
unfoldable pub by_id : Text → Text → List Text → Pattern
by_id name rid_label id = register Verb.get (new_method name rid_label [] (codes "byId.$Id") id)

-- `Concat`: the parameters are those of the method that the pattern was made by.
unfoldable pub concat : Text → Pattern → Method
concat c p = record p.made_by {
  endpoint = p.endpoint ++ (b'.' ∷ c);
  auth = true;
  endpoint_no_params = p.endpoint_no_params ++ (b'.' ∷ c);
  persistent = false;
}

-- `Routes` of a rid: the endpoint of one service of the name, whose key is written out.
unfoldable pub own_routes : Text → Text → Pattern
own_routes service key =
    let endpoint = codes "route." ++ key in
    register Verb.get (record {
      label = [];
      service = service;
      service_label = [];
      endpoint = endpoint;
      auth = false;
      params = [];
      endpoint_no_params = endpoint;
      persistent = false;
    })

-- `Query` with a query that is encoded.
abbrev pub query : Text → Pattern → Pattern
query q p = record p { query_params = some q }

-- `EndpointNoMethod` and `EndpointName`.
unfoldable pub endpoint_no_method : Pattern → Text
endpoint_no_method p = if is_empty p.endpoint then p.service else p.service ++ (b'.' ∷ p.endpoint)

unfoldable pub endpoint_name : Pattern → Text
endpoint_name p =
    if is_empty p.endpoint
    then p.service ++ (b'.' ∷ p.method)
    else p.service ++ (b'.' ∷ (p.endpoint_no_params ++ (b'.' ∷ p.method)))

-- The requests of the service `route`.
abbrev pub validate_token : Pattern
validate_token =
    make_internal (new_method (codes "route") (codes "route") [] (codes "token.validate") [])

abbrev pub user_have_permission : Pattern
user_have_permission =
    make_internal (new_method (codes "route") (codes "route") [] (codes "user.have.permission") [])

-- The events of the WebSocket side.
abbrev pub event_socket_connected : Pattern
event_socket_connected = make_event (
    new_method (codes "route") (codes "route")
      (codes "User has authenticated through Socket channel") (codes "socket.connected") [])

unfoldable pub event_socket_disconnected : List Text → Pattern
event_socket_disconnected id = make_event (
    new_method (codes "route") (codes "route") (codes "User has disconnected from Socket channel")
      (codes "socket.disconnected.$Id") id)
