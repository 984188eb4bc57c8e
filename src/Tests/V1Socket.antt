-- ===== src/Tests/V1Socket.antt =====
-- A toy client of the WebSocket side of version 1 (pkg/route/socket).
use spike_broker.Prelude.{
  ◌≡◌, refl, ◌↔◌, inr, false, none, [], ◌∷◌, is_empty, codes, text_eq, insert,
}
use spike_broker.Text.{split, has_byte, has_prefix, replace_first, join}
use spike_broker.Rids.Pattern.{json, nil}
use spike_broker.Rids.Verb
use spike_broker.Go.{value}
use spike_broker.Socket.Message.{WsMessage, type_request}
use spike_broker.V1.Rids.{new_method, pattern_with, bind_each, bind_part}
use spike_broker.V1.Endpoint.{pattern_from_endpoint, find_pattern, match_pattern, match_parts}
use spike_broker.V1.Connection.{
  Provider, Peer, State, named_pattern, service_patterns, socket_permission,
}
use spike_broker.V1.Socket.{prepare, permit}
use spike_broker.V1.Socket.Permission.{socket_permission-asked_iff}
use spike_broker.V1.Socket.Permitted.{prepare-Decides, Decides}
use spike_broker.V1.Rest.Permission.{asked}
use spike_broker.Tests.World.{Mail}
use spike_broker.Tests.V1Route.{auth, item, codec}

abbrev provider : Provider Mail
provider = record {
  request = λ p m t w. (value (inr (codes "7")), (p.endpoint, t) ∷ w);
  publish = λ p m t w. (value none, (p.endpoint, t) ∷ w);
  monitor = λ group p f w. (value (inr 3), (p.endpoint, group) ∷ w);
  publish_raw = λ subject content w. (subject, content) ∷ w;
}

abbrev peer : Peer Mail
peer = record {
  codec = codec;
  provider = provider;
  auths = auth ∷ [];
  decode = λ s. inr (json s);
  write_json = λ m w. (none, (m.kind, m.id) ∷ w);
}

abbrev start : State Mail
start = record { world = []; id = codes "1"; token = codes "me"; monitors = []; spawned = [] }

abbrev pub asking : WsMessage
asking = record {
  id = codes "9";
  kind = type_request;
  endpoint = codes "shop.item.7";
  verb = Verb.get;
  token = [];
  query = [];
  payload = nil;
}

prepare-Decides_example :
    Decides peer asking start (inr (record item { params = (codes "Id", codes "7") ∷ [] })) start
unfolding prepare named_pattern service_patterns pattern_from_endpoint find_pattern match_pattern
    match_parts permit pattern_with new_method bind_each bind_part split has_prefix text_eq join
    has_byte replace_first insert
prepare-Decides_example =
    prepare-Decides peer asking start start
      (inr (record item { params = (codes "Id", codes "7") ∷ [] })) refl

socket_permission-asked_iff_example :
    (socket_permission item.service item.method item ≡ asked item)
    ↔ (is_empty item.endpoint ≡ false)
socket_permission-asked_iff_example = socket_permission-asked_iff item
