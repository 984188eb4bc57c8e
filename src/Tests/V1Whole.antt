-- ===== src/Tests/V1Whole.antt =====
-- A toy client whose messages go over a toy bus to a service of version 1, and a toy database.
use spike_broker.Prelude.{
  ◌≡◌, refl, inr, true, Option, none, some, [], ◌∷◌, arith, Text, codes, text_eq, insert,
}
use spike_broker.Prelude.Decimal.{pos, parse_int, parse_below, parse_digits}
use spike_broker.Text.{replace_all, split, has_byte, has_prefix, replace_first, join}
use spike_broker.Rids.Pattern.{json}
use spike_broker.Go.{value, pure}
use spike_broker.Nats.Ring.{next}
use spike_broker.Nats.Response.{message, clamp_timeout}
use spike_broker.Nats.Response.Waiting.{extensions}
use spike_broker.Nats.Provider.{Bus, Nats}
use spike_broker.Nats.Provider.Requests.{IsServed}
use spike_broker.Rids.Verb
use spike_broker.V1.Url.{endpoint_http}
use spike_broker.V1.Url.Own.{endpoint_http-route_of, lit, bound}
use spike_broker.V1.Routes.{route_of}
use spike_broker.V1.Middleware.{slashes}
use spike_broker.V1.Nats.{fill_params}
use spike_broker.V1.Rids.{
  by_id, concat, own_routes, make_persistent, no_auth, register, endpoint_no_method, query, Pattern,
  new_method, pattern_with, bind_each, bind_part, endpoint_name,
}
use spike_broker.V1.Auth.{AuthRid}
use spike_broker.V1.Request.{empty_request, read_answer}
use spike_broker.V1.Handler.{prepared}
use spike_broker.V1.Endpoint.{pattern_from_endpoint, find_pattern, match_pattern, match_parts}
use spike_broker.V1.Connection.{Peer, State, named_pattern, service_patterns, new_request}
use spike_broker.V1.Nats.Interface.{nats_provider, over_nats}
use spike_broker.V1.Socket.{prepare, permit, handle_request_message}
use spike_broker.V1.Socket.Served.{handle_request_message-IsServed}
use spike_broker.V1.Migration.{
  Database, Version, SchemaVersion, version_index, digits_of, latest, migrate, migrate_each, save,
}
use spike_broker.V1.Migration.Settled.{migrate-migrate}
use spike_broker.Tests.World.{Mail}
use spike_broker.Tests.NatsProvider.{bus, none_yet}
use spike_broker.Tests.V1Route.{item, codec}
use spike_broker.Tests.V1Socket.{asking}

abbrev answer : Text
answer = 200 ∷ codes "7"

abbrev answering : Bus Mail
answering = record bus {
  received = λ inbox w. (extensions (pos 5000000000 ∷ []) (message answer ∷ []), w);
}

abbrev auth : AuthRid (Nats Mail)
auth = record {
  service = codes "shop";
  auth = record { validate_token = λ t. pure (t, true); user_have_permission = λ m. pure true };
  patterns = item ∷ [];
}

abbrev peer : Peer (Nats Mail)
peer = record {
  codec = codec;
  provider = nats_provider answering codec (pos 7);
  auths = auth ∷ [];
  decode = λ s. inr (json s);
  write_json = λ m s. (none, record s { world = (m.kind, m.id) ∷ s.world });
}

abbrev start : State (Nats Mail)
start = record { world = none_yet; id = codes "1"; token = codes "me"; monitors = []; spawned = [] }

abbrev bound_item : Pattern
bound_item = record item { params = (codes "Id", codes "7") ∷ [] }

abbrev content : Text
content = codec.call_to_json (prepared bound_item empty_request (codes "me"))

abbrev sent : Mail
sent = (endpoint_name bound_item, content) ∷ (codes "inbox", []) ∷ []

served : IsServed answering none_yet (endpoint_name bound_item) content (pos 5000000000 ∷ []) answer
unfolding next
served = record {
  inbox = codes "inbox";
  made = [];
  makes = refl;
  subscription = 1;
  subscribed = (codes "inbox", []) ∷ [];
  subscribes = refl;
  sent = sent;
  sends = refl;
  later = [];
  done = sent;
  receives = refl;
}

-- The client gets one response, with the id of its request.
handle_request_message-IsServed_example :
    handle_request_message (over_nats answering (pos 7) peer) asking start ≡ (
      value none,
      record start {
        world = record none_yet {
          world = (codes "response", codes "9") ∷ (codes "end", []) ∷ sent;
        };
      },
    )
unfolding prepare named_pattern service_patterns pattern_from_endpoint find_pattern match_pattern
    match_parts permit pattern_with new_method bind_each bind_part split has_prefix text_eq join
    has_byte replace_first insert new_request read_answer clamp_timeout served next
handle_request_message-IsServed_example =
    handle_request_message-IsServed answering (pos 7) peer asking bound_item empty_request start
      start (pos 5000000000 ∷ []) answer (codes "7") (codes "7") (json (codes "7")) served refl refl
      (omega arith, tt) refl refl refl refl

abbrev version_one : Version Mail
version_one = record { type_name = codes "v1"; migrate = λ w. (value none, (codes "v1", []) ∷ w) }

abbrev create : SchemaVersion → Mail → Option Text × Mail
create row w = (none, (row.service, []) ∷ w)

abbrev migrated : Database Mail
migrated = record {
  schema = record { service = codes "route"; version = 1 } ∷ [];
  world = (codes "route", []) ∷ (codes "v1", []) ∷ [];
}

migrate-migrate_example :
    migrate create (codes "route") (version_one ∷ []) migrated ≡ (value none, migrated)
unfolding migrate migrate_each version_index digits_of latest save parse_int parse_below
    parse_digits
migrate-migrate_example =
    migrate-migrate create (codes "route") (version_one ∷ []) (record { schema = []; world = [] })
      migrated refl

-- The address of an endpoint with a parameter and a query.
endpoint_http-route_of_example :
    ((route_of (query (codes "a=1") (by_id (codes "shop") (codes "Shop") (codes "7" ∷ [])))).path
      ≡ codes "/api/shop/byId/{Id}")
    × (endpoint_http (query (codes "a=1") (by_id (codes "shop") (codes "Shop") (codes "7" ∷ [])))
        ≡ codes "/api/shop/byId/7?a=1")
unfolding by_id join has_byte
endpoint_http-route_of_example =
    endpoint_http-route_of (codes "shop") (codes "Shop") [] Verb.get (some (codes "a=1"))
      (lit (codes "byId") ∷ bound (codes "Id") (codes "7") ∷ []) (refl, refl)
      ((refl, refl), (((refl, refl), (refl, refl)), tt)) refl

-- A value with a dot takes two parts of the address, where the route has one.
endpoint_http_of_dots :
    endpoint_http (by_id (codes "shop") (codes "Shop") (codes "1.5" ∷ []))
    ≡ codes "/api/shop/byId/1/5"
unfolding endpoint_http endpoint_no_method by_id new_method bind_each bind_part pattern_with split
    join has_byte has_prefix replace_first insert slashes fill_params replace_all
endpoint_http_of_dots = refl

-- An endpoint that goes on behind the one of a pattern, for all clients.
concat-by_id :
    endpoint_name (
      register Verb.get (
        make_persistent (
          no_auth (concat (codes "stock") (by_id (codes "shop") (codes "Shop") (codes "7" ∷ []))))))
    ≡ codes "shop.byId.$Id.stock.GET"
unfolding concat by_id new_method bind_each bind_part pattern_with split join has_byte has_prefix
    replace_first insert endpoint_name
concat-by_id = refl

own_routes_name : endpoint_name (own_routes (codes "shop") (codes "1a")) ≡ codes "shop.route.1a.GET"
unfolding own_routes pattern_with endpoint_name
own_routes_name = refl
