-- ===== src/Rids/Base.antt =====
-- v2/pkg/rids/base.go and spike.go: a service's resource, and the events of the broker itself.
use spike_broker.Prelude.{ℕ, ◌||◌, Option, none, some, List, [], ◌==◌, if◌then◌else◌, Text, codes}
use spike_broker.Rids.Verb
use spike_broker.Rids.Method.{Method, new_method, make_internal, make_verb}
use spike_broker.Rids.Pattern.{Pattern, new_pattern}

-- `Base`.
pub record Base : Type 0 where
  pub name : Text
  pub label : Text
  pub http_prefix : Text
  pub ws_prefix : Text
  pub version : ℕ

abbrev rid_version : Option ℕ → Option ℕ
rid_version none = some 2
rid_version (some v) = if v == 1 || v == 2 then some v else none

-- `NewRid`. The version is 2 if none is given; one other than 1 and 2 panics, which is `none`.
unfoldable pub new_rid : Text → Text → Text → Option ℕ → Option Base
new_rid name label http_prefix version = elim (rid_version version) [
  | none ↦ none
  | some v ↦ some (record {
    name = name;
    label = label;
    http_prefix = http_prefix;
    ws_prefix = [];
    version = v;
  })
]

-- `NewMethod`.
unfoldable pub base_method : Base → Text → Text → List Text → Method
base_method b label endpoint params =
    new_method b.name b.label label b.http_prefix endpoint b.version params

unfoldable pub validate_monitor : Base → Pattern
validate_monitor b =
    new_pattern
      (make_internal (base_method b (codes "Validate monitor") (codes "validateMonitor") []))

unfoldable pub validate_publish : Base → Pattern
validate_publish b =
    new_pattern
      (make_internal (base_method b (codes "Validate monitor") (codes "validatePublish") []))

unfoldable pub live : Base → Pattern
live b =
    new_pattern
      (make_verb Verb.get (base_method b (codes "Inform the service is ready") (codes "live") []))

-- `ByID`.
unfoldable pub by_id : Base → List Text → Pattern
by_id b id = new_pattern (make_verb Verb.get (base_method b [] (codes "byId.$Id") id))

-- `Spike`, the resource of the broker's own events.
abbrev pub spike : Base
spike = record {
  name = codes "spike";
  label = codes "spike";
  http_prefix = [];
  ws_prefix = [];
  version = 2;
}

unfoldable pub event_socket_connected : Pattern
event_socket_connected = new_pattern (
    make_verb Verb.event (
      base_method spike (codes "User has IsPublic through Socket channel")
        (codes "socket.connected") []))

unfoldable pub event_socket_disconnected : List Text → Pattern
event_socket_disconnected id = new_pattern (
    make_verb Verb.event (
      base_method spike (codes "User has disconnected from Socket channel")
        (codes "socket.disconnected.$Id") id))
