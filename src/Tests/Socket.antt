-- ===== src/Tests/Socket.antt =====
-- Messages of a client of the toy service.
use spike_broker.Prelude.{◌≡◌, refl, ◌≢◌, true, none, [], ◌∷◌, arith, codes, text_eq, insert, Bool}
use spike_broker.Text.{split, join, has_byte, has_prefix}
use spike_broker.Rids.Verb
use spike_broker.Rids.Pattern.{
  Pattern, nil, endpoint_name, endpoint_name_specific, str, query, set_params, clone, new_pattern,
}
use spike_broker.Rids.Fill.{lit, param}
use spike_broker.Socket.Endpoint.{
  pattern_from_endpoint, find_pattern, match_pattern, match_parts, instantiate,
}
use spike_broker.Socket.Endpoint.Found.{HasShape, pattern_from_endpoint-names}
use spike_broker.Socket.Message.{WsMessage, State, type_publish}
use spike_broker.Socket.Handlers.{Peer, handle_publish_message}
use spike_broker.Socket.Handlers.Publishing.{handle_publish_message-fails}
use spike_broker.Socket.Loop.{
  closed, broken, message, ws_handler, answer_reads, close_connection, ws_handler-answer_reads,
}
use spike_broker.Go.{value, pure, recovering}
use spike_broker.Tests.World.{Mail, item, sold, codec, answering, pattern_of}
use spike_broker.Rids.Method.{update_params}

-- The item that a client asks for.
abbrev wanted : Pattern
wanted = record (pattern_of Verb.get (codes "item.$Id") ((codes "Id", codes "42") ∷ [])) {
  query_params_value = str (codes "full=1");
}

item-HasShape : HasShape item
unfolding join has_byte
item-HasShape = (
  lit (codes "item"),
  param (codes "Id") ∷ [],
  record {
    generic = refl;
    named = λ e. cc;
    plain = ((refl, refl), (((λ e. cc), refl), tt));
    distinct = (tt, tt);
    service = (refl, refl);
    verb = (refl, refl);
  },
)

pattern_from_endpoint-names_example : endpoint_name_specific wanted ≡ codes "shop.item.42.GET"
unfolding split has_byte has_prefix join pattern_from_endpoint find_pattern match_pattern
    match_parts instantiate endpoint_name query set_params clone new_pattern update_params text_eq
    insert
pattern_from_endpoint-names_example =
    pattern_from_endpoint-names (item ∷ []) (codes "shop.item.42.GET?full=1") wanted
      (item-HasShape, tt)
      (
        ((λ e. cc), refl, (λ e. cc)),
        (
          ((λ e. cc), refl, (λ e. cc)),
          (((λ e. cc), refl, (λ e. cc)), (((λ e. cc), refl, (λ e. cc)), tt)),
        ),
      )
      refl

abbrev peer : Peer Mail
peer = record {
  codec = codec;
  impl = answering (200 ∷ 0 ∷ []);
  validate_token = λ t. pure (t, true);
  has_permission = λ m. pure true;
  write_json = λ m w. (true, w);
}

abbrev state : State Mail
state = record {
  world = [];
  session = record { id = codes "c1"; token = codes "me"; handlers = item ∷ sold ∷ [] };
  spawned = [];
}

abbrev selling : WsMessage
selling = record {
  id = codes "1";
  kind = type_publish;
  endpoint = codes "shop.sold";
  verb = Verb.event;
  token = [];
  query = [];
  payload = nil;
}

handle_publish_message-fails_example :
    handle_publish_message peer selling state ≢ (value none, state)
handle_publish_message-fails_example =
    handle_publish_message-fails peer selling state state (omega arith)

-- A peer that keeps what is written to its client.
abbrev written : WsMessage → Mail → Bool × Mail
written m w = (true, (m.id, m.kind) ∷ w)

abbrev recording : Peer Mail
recording = record peer { write_json = written }

abbrev hang_up : Mail → Mail
hang_up w = (codes "cancelled", []) ∷ w

ws_handler-answer_reads_example :
    ws_handler recording hang_up hang_up
      (broken selling (codes "x") ∷ message selling ∷ closed ∷ [])
      state
    ≡ recovering
        (close_connection recording hang_up hang_up)
        (answer_reads recording hang_up hang_up
          (broken selling (codes "x") ∷ message selling ∷ closed ∷ []))
        state
ws_handler-answer_reads_example =
    ws_handler-answer_reads recording hang_up hang_up
      (broken selling (codes "x") ∷ message selling ∷ closed ∷ []) state
