-- ===== src/V1/Socket/Served.antt =====
-- A request message of a WebSocket client of version 1 (pkg/route/socket/messagerequest.go) that goes
-- over NATS (pkg/service/providers/nats/nats-provider.go) to a service.
use spike_broker.Prelude.{◌≡◌, ap, ◌∙◌, ◌⊎◌, inr, false, some, List, arith, All, Text}
use spike_broker.Prelude.Decimal.{ℤ}
use spike_broker.Text.{has_prefix}
use spike_broker.Rids.Pattern.{Any, str}
use spike_broker.Go.{value, Exit, continue, ◌>>=◌}
use spike_broker.Socket.Message.{WsMessage, type_response}
use spike_broker.Nats.Ring.{next}
use spike_broker.Nats.Response.Waiting.{InRange}
use spike_broker.Nats.Response.{timeout_prefix}
use spike_broker.Nats.Provider.{Bus, Nats}
use spike_broker.Nats.Provider.Requests.{IsServed}
use spike_broker.V1.Rids.{Pattern, endpoint_name}
use spike_broker.V1.Request.{CallRequest, ErrorRequest, read_answer}
use spike_broker.V1.Handler.{prepared}
use spike_broker.V1.Connection.{Peer, State, new_request}
use spike_broker.V1.Nats.Interface.{nats_provider, over_nats}
use spike_broker.V1.Nats.Served.{request-IsServed}
use spike_broker.V1.Socket.{prepare, handle_request_message, respond, send_request, if_ready, wrap}

-- What the client is sent.
abbrev pub response_to : WsMessage → Text → WsMessage
response_to m text = record m { kind = type_response; payload = str text }

module _ {W : Type 0} (bus : Bus W) (t : ℤ) (peer : Peer (Nats W)) (m : WsMessage) where
  -- The connection after the request has been served.
  abbrev pub after :
      (u : State (Nats W)) (p : Pattern) (call : CallRequest) (ts : List ℤ) (resp : Text)
      → IsServed bus u.world
          (endpoint_name p)
          (peer.codec.call_to_json (prepared p call u.token))
          ts
          resp
      → Nats W
  after u p call ts resp served = record u.world {
    ring = next u.world.ring;
    world = bus.unsubscribe (some served.subscription) served.done;
  }

  send_request-IsServed :
      (p : Pattern) (call : CallRequest) (u : State (Nats W)) (ts : List ℤ) (resp : Text)
      (served : IsServed bus u.world
        (endpoint_name p)
        (peer.codec.call_to_json (prepared p call u.token))
        ts
        resp)
      → All InRange ts
      → has_prefix resp timeout_prefix ≡ false
      → send_request (over_nats bus t peer) m p call u
        ≡ respond
            (over_nats bus t peer)
            m
            (read_answer peer.codec resp)
            (record u { world = after u p call ts resp served })
  unfolding nats_provider
  send_request-IsServed p call u ts resp served range other =
      ap
        (λ (r : Exit (ErrorRequest ⊎ Text) × Nats W).
          continue (respond (over_nats bus t peer) m) (r.0, record u { world = r.1 }))
        (request-IsServed bus t peer.codec p call u.token u.world ts resp served range other)

  respond_text :
      (content text : Text) (x : Any) (s : State (Nats W))
      → peer.decode content ≡ inr x
      → peer.codec.any_to_json x ≡ some text
      → respond (over_nats bus t peer) m (inr content) s ≡ (
        value (wrap (over_nats bus t peer) (peer.write_json (response_to m text) s.world).0),
        record s { world = (peer.write_json (response_to m text) s.world).1 },
      )
  respond_text content text x s decoded encoded = ground (arith, decoded, encoded)

  -- A request message that is let through, and that a service answers with data: the client gets the
  -- data, encoded again, in one message with the id of its own, and an error only where that cannot
  -- be written. The calls of package nats succeed, the extensions of the timeout are below 2⁶³, and
  -- the answer does not begin like one.
  pub handle_request_message-IsServed :
      (p : Pattern) (call : CallRequest) (s u : State (Nats W)) (ts : List ℤ)
      (resp content text : Text) (x : Any)
      (served : IsServed bus u.world
        (endpoint_name p)
        (peer.codec.call_to_json (prepared p call u.token))
        ts
        resp)
      → prepare (over_nats bus t peer) m s ≡ (value (inr p), u)
      → new_request peer.codec m.payload u ≡ (value call, u)
      → All InRange ts
      → has_prefix resp timeout_prefix ≡ false
      → read_answer peer.codec resp ≡ inr content
      → peer.decode content ≡ inr x
      → peer.codec.any_to_json x ≡ some text
      → handle_request_message (over_nats bus t peer) m s ≡ (
        value (
            wrap
              (over_nats bus t peer)
              (peer.write_json (response_to m text) (after u p call ts resp served)).0),
        record u {
          world = (peer.write_json (response_to m text) (after u p call ts resp served)).1;
        },
      )
  unfolding handle_request_message
  handle_request_message-IsServed p call s u ts resp content text x served ready made range other
        read decoded encoded =
      ap
        (continue (
          if_ready (over_nats bus t peer)
            (λ q. new_request peer.codec m.payload >>= send_request (over_nats bus t peer) m q)))
        ready
      ∙ ap (continue (send_request (over_nats bus t peer) m p)) made
      ∙ send_request-IsServed p call u ts resp served range other
      ∙ ap
          (λ (r : ErrorRequest ⊎ Text).
            respond (over_nats bus t peer) m r (record u { world = after u p call ts resp served }))
          read
      ∙ respond_text content text x (record u { world = after u p call ts resp served }) decoded
          encoded
