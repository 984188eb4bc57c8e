-- ===== src/V1/Nats.antt =====
-- pkg/service/providers/nats/nats-provider.go: the provider of version 1 over connections of package
-- nats. Its ring, its channels and what it calls of the package are those of version 2; the handler
-- that a subscription runs is in V1/Handler.
pub mod Response
pub mod Absent
pub mod Interface
pub mod Served
use spike_broker.Prelude.{
  ℕ, zero, suc, ◌+◌, ◌-◌, ◌*◌, ◌/◌, ◌%◌, ◌^◌, ◌≤◌, ◌<◌, ◌≡◌, refl, sym, ap, ◌∙◌, ◌≢◌, ◌↔◌, ◌⊎◌, inl,
  inr, Bool, true, false, not, ◌&&◌, ◌||◌, Option, none, some, List, [], ◌∷◌, ◌++◌, map, arith, ltb,
  leb, ◌==◌, if◌then◌else◌, ==_iff, Bool-cases, Option-cases, length, length-append, is_empty, drop,
  find, filter, drop_last, All, All-append, All-left, Text, codes, text_eq, text_eq_refl,
  text_eq_iff, text_eq_ne, Dict, lookup, insert, lookup-insert, contains,
}
use spike_broker.Prelude.Decimal.{ℤ}
use spike_broker.Text.{replace_all}
use spike_broker.Go.{Go, value, Exit}
use spike_broker.Nats.Ring.{Ring, next, with_conns, for_each}
use spike_broker.Nats.Subject.{wildcards}
use spike_broker.Nats.Response.{Received, expired}
use spike_broker.Nats.Provider.{Bus, Nats, max_conns, connect_all, Handle}
use spike_broker.V1.Rids.{Pattern, endpoint_name}
use spike_broker.V1.Request.{
  CallRequest, ErrorRequest, Codec, internal_error, error_timeout, empty_request,
}
use spike_broker.V1.Handler.{prepared}
use spike_broker.V1.Nats.Response.{waiting, failed, payload, process_response}

-- The loop over the parameters of a pattern, in the order in which Go's map gives them.
unfoldable pub fill_params : Dict Text → Text → Text
fill_params [] s = s
fill_params ((key, v) ∷ ps) s = fill_params ps (replace_all (b'$' ∷ key) v 0 s)

unfoldable pub specific_subject : Pattern → Text
specific_subject p = fill_params p.params (endpoint_name p)

abbrev pub payload_of : Option CallRequest → CallRequest
payload_of none = empty_request
payload_of (some m) = m

module _ {W : Type 0} (bus : Bus W) where
  -- `NewNatsConn`: the connections are made once for the process.
  unfoldable pub new_nats_conn : Option Ring → Go W Ring
  new_nats_conn (some ring) w = (value ring, w)
  new_nats_conn none w = connect_all bus w

  -- `Drain`, and `Close`, after which the ring stays as it is.
  unfoldable pub drain : Nats W → Nats W
  drain s = record s { world = for_each bus.drain (s.ring.here ∷ s.ring.rest) s.world }

  unfoldable pub close : Nats W → Nats W
  close s = record (drain s) {
    world = for_each bus.close (s.ring.here ∷ s.ring.rest) (drain s).world;
  }

  abbrev pub subscribe_on : Text → Text → ℕ → ℕ → Option ℕ × W → Option ℕ × W
  subscribe_on subject group channel conn (last, w) =
      bus.queue_subscribe conn subject group channel w

  -- `Subscribe`: the subscription on the last connection is returned, and no error.
  unfoldable pub subscribe : Pattern → Nats W → Option ℕ × Nats W
  subscribe p s =
      let (ring, (last, w)) =
        with_conns max_conns
          (subscribe_on (wildcards (endpoint_name p)) (endpoint_name p) s.channels) s.ring
          (none, s.world) in
      (last, record s { ring = ring; channels = suc s.channels; world = w })

  -- `SubscribeAll`.
  unfoldable pub subscribe_all : Pattern → Nats W → (Text ⊎ ℕ) × Nats W
  subscribe_all p s =
      let ring = next s.ring in
      let (sub, w) = bus.chan_subscribe ring.here (wildcards (endpoint_name p)) s.world in
      (sub, record s { ring = ring; channels = suc s.channels; world = w })

  -- `Monitor`: nothing where subscribing has failed.
  unfoldable pub monitor : Text → Pattern → Nats W → Option Handle × Nats W
  monitor group p s =
      let ring = next s.ring in
      let (sub, w) =
        bus.queue_subscribe ring.here (wildcards (specific_subject p)) group s.channels s.world in
      (
        elim sub [
          | none ↦ none
          | some n ↦ some (record { unsubs = some n ∷ []; channel = s.channels })
        ],
        record s { ring = ring; channels = suc s.channels; world = w },
      )

  abbrev pub unsubscribe_each : List (Option ℕ) → W → W
  unsubscribe_each [] w = w
  unsubscribe_each (u ∷ us) w = unsubscribe_each us (bus.unsubscribe u w)

  -- The function that `Monitor` returns.
  unfoldable pub end_monitor : Handle → Nats W → Nats W
  end_monitor h s = record s {
    world = unsubscribe_each h.unsubs s.world;
    closed = h.channel ∷ s.closed;
  }

  -- `RegisterMonitor`: whether it has succeeded.
  unfoldable pub register_monitor : Pattern → Nats W → Bool × Nats W
  register_monitor p s =
      let (h, s') = monitor p.service p s in (elim h [ none ↦ false | some x ↦ true ], s')

  -- `PublishRaw`; an error is its text.
  unfoldable pub publish_raw : Text → Text → Nats W → Option Text × Nats W
  publish_raw subject content s =
      let ring = next s.ring in
      let (e, w) = bus.publish ring.here subject content s.world in
      (e, record s { ring = ring; world = w })

  -- `Publish`. The query parameters of the pattern can be encoded.
  unfoldable pub publish :
      Codec → Pattern → Option CallRequest → Text → Nats W → Option Text × Nats W
  publish c p m token s =
      publish_raw (specific_subject p) (c.call_to_json (prepared p (payload_of m) token)) s

  -- How `processResponse` ends. It cannot wait on, since its timer ends.
  unfoldable pub await : ℤ → Text → W → (Option ErrorRequest × Text) × W
  await t inbox w =
      let (messages, w') = bus.received inbox w in
      elim ((process_response t (messages ++ (expired ∷ []))).1) [
        | waiting ↦ ((some error_timeout, []), w')
        | failed e ↦ ((some e, []), w')
        | payload b ↦ ((none, b), w')
      ]

  abbrev pub after_publish : ℤ → Text → Option Text × W → (Option ErrorRequest × Text) × W
  after_publish t inbox (some e, w) = ((some (internal_error e), []), w)
  after_publish t inbox (none, w) = await t inbox w

  -- What follows the subscription to the inbox; the deferred function ends it in every case.
  abbrev pub after_inbox :
      ℤ → ℕ → Text → Text → Text → (Text ⊎ ℕ) × W → (Option ErrorRequest × Text) × W
  after_inbox t conn inbox subject content (inl e, w) = ((some (internal_error e), []), w)
  after_inbox t conn inbox subject content (inr sub, w) =
      let (result, w') = after_publish t inbox (bus.publish_msg conn subject inbox content w) in
      (result, bus.unsubscribe (some sub) w')

  -- `RequestRaw`, with `globalTimeout`.
  unfoldable pub request_raw : ℤ → Text → Text → Nats W → (Option ErrorRequest × Text) × Nats W
  request_raw t subject content s =
      let ring = next s.ring in
      let (inbox, w) = bus.new_inbox s.world in
      let (result, w') =
        after_inbox t ring.here inbox subject content (bus.chan_subscribe ring.here inbox w) in
      (result, record s { ring = ring; world = w' })
