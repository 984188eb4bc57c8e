-- ===== src/Nats/Provider.antt =====
-- v2/pkg/broker/providers/nats/provider.go: the provider over connections of package nats.
pub mod Turns
pub mod Requests
use spike_broker.Prelude.{
  ℕ, zero, suc, ◌+◌, ◌-◌, ◌*◌, ◌/◌, ◌%◌, ◌^◌, ◌≤◌, ◌<◌, ◌≡◌, refl, sym, ap, ◌∙◌, ◌≢◌, ◌↔◌, ◌⊎◌, inl,
  inr, Bool, true, false, not, ◌&&◌, ◌||◌, Option, none, some, List, [], ◌∷◌, ◌++◌, map, arith, ltb,
  leb, ◌==◌, if◌then◌else◌, ==_iff, Bool-cases, Option-cases, length, length-append, is_empty, drop,
  find, filter, drop_last, All, All-append, All-left, Text, codes, text_eq, text_eq_refl,
  text_eq_iff, text_eq_ne, Dict, lookup, insert, lookup-insert, contains,
}
use spike_broker.Prelude.Decimal.{ℤ}
use spike_broker.Rids.Pattern.{Pattern, Any, endpoint_name_specific}
use spike_broker.Broker.Message.{ErrorMessage, internal_error, plain, error_timeout}
use spike_broker.Broker.Call.{Codec, Call, new_call}
use spike_broker.Broker.Provider.{Specific}
use spike_broker.Go.{Go, continue, value, raise, pure, of_error, ◌>>=◌, Exit}
use spike_broker.Nats.Ring.{Ring, next, add_conn, size, with_conns, for_each}
use spike_broker.Nats.Subject.{wildcards}
use spike_broker.Nats.Response.{
  Received, expired, Response, waiting, failed, payload, process_response,
}

abbrev pub max_conns : ℕ
max_conns = 20

-- What is called of package nats, on a connection given by its number: each call may fail, with
-- the text of its error. A subscription is a number, which is missing where subscribing has failed.
-- `received` is what a channel gets of an inbox before the timer ends.
pub record Bus (W : Type 0) : Type 0 where
  pub connect : W → (Text ⊎ ℕ) × W
  pub queue_subscribe : ℕ → Text → Text → ℕ → W → Option ℕ × W
  pub unsubscribe : Option ℕ → W → W
  pub publish : ℕ → Text → Text → W → Option Text × W
  pub new_inbox : W → Text × W
  pub chan_subscribe : ℕ → Text → W → (Text ⊎ ℕ) × W
  pub publish_msg : ℕ → Text → Text → Text → W → Option Text × W
  pub received : Text → W → List Received × W
  pub drain : ℕ → W → W
  pub close : ℕ → W → W

-- A provider that is not closed: the ring of its connections, the number of channels that it has
-- made, and those that it has closed.
pub record Nats (W : Type 0) : Type 0 where
  pub ring : Ring
  pub channels : ℕ
  pub closed : List ℕ
  pub world : W

-- What the function that ends a subscription holds.
pub record Handle : Type 0 where
  pub unsubs : List (Option ℕ)
  pub channel : ℕ

abbrev pub bus_error : Text → ErrorMessage
bus_error t = internal_error (some (plain t))

module _ {W : Type 0} (bus : Bus W) where
  -- The loop of `NewNatsProvider`, which panics where it cannot connect.
  abbrev pub connected : (Ring → Go W Ring) → Option Ring → (Text ⊎ ℕ) × W → Exit Ring × W
  connected rest ring (inl e, w) = raise (of_error (plain e)) w
  connected rest ring (inr c, w) = rest (add_conn ring c) w

  unfoldable pub connect_more : ℕ → Ring → Go W Ring
  connect_more zero ring w = (value ring, w)
  connect_more (suc n) ring w = connected (connect_more n) (some ring) (bus.connect w)

  -- `max_conns` rounds, the first of which makes the ring.
  unfoldable pub connect_all : Go W Ring
  connect_all w = connected (connect_more (max_conns - 1)) none (bus.connect w)

  -- `NewNatsProvider` where there are no connections yet.
  unfoldable pub new_nats_provider : Go W (Nats W)
  new_nats_provider = connect_all >>= λ ring w.
      (value (record { ring = ring; channels = 0; closed = []; world = w }), w)

  -- One round of the loop in `SubscribeRaw`.
  abbrev pub subscribe_on : Text → Text → ℕ → ℕ → List (Option ℕ) × W → List (Option ℕ) × W
  subscribe_on subject group channel conn (unsubs, w) =
      let (unsub, w') = bus.queue_subscribe conn subject group channel w in
      (unsubs ++ (unsub ∷ []), w')

  -- `SubscribeRaw`: the messages of all connections come through one channel.
  unfoldable pub subscribe_raw : Pattern → Text → Nats W → Handle × Nats W
  subscribe_raw p group s =
      let subject = wildcards (endpoint_name_specific p) in
      let (ring, (unsubs, w)) =
        with_conns max_conns (subscribe_on subject group s.channels) s.ring ([], s.world) in
      (
        record { unsubs = unsubs; channel = s.channels },
        record s { ring = ring; channels = suc s.channels; world = w },
      )

  unfoldable pub unsubscribe_each : List (Option ℕ) → W → W
  unsubscribe_each [] w = w
  unsubscribe_each (u ∷ us) w = unsubscribe_each us (bus.unsubscribe u w)

  -- The function that `SubscribeRaw` returns. A channel that is closed a second time panics, which
  -- is recovered and logged.
  unfoldable pub end_subscription : Handle → Nats W → Nats W
  end_subscription h s = record s {
    world = unsubscribe_each h.unsubs s.world;
    closed = h.channel ∷ s.closed;
  }

  abbrev pub publish_error : Option Text → Option ErrorMessage
  publish_error none = none
  publish_error (some e) = some (bus_error e)

  -- `PublishRaw`.
  unfoldable pub publish_raw : Text → Text → Nats W → Option ErrorMessage × Nats W
  publish_raw subject content s =
      let ring = next s.ring in
      let (e, w) = bus.publish ring.here subject content s.world in
      (publish_error e, record s { ring = ring; world = w })

  -- How `processResponse` ends. It cannot wait on, since its timer ends.
  unfoldable pub await : ℤ → Text → W → (Option ErrorMessage × Text) × W
  await t inbox w =
      let (messages, w') = bus.received inbox w in
      elim ((process_response t (messages ++ (expired ∷ []))).1) [
        | waiting ↦ ((some error_timeout, []), w')
        | failed e ↦ ((some e, []), w')
        | payload b ↦ ((none, b), w')
      ]

  -- What follows the subscription to the inbox; the deferred function ends it in every case.
  abbrev pub after_publish : ℤ → Text → Option Text × W → (Option ErrorMessage × Text) × W
  after_publish t inbox (some e, w) = ((some (bus_error e), []), w)
  after_publish t inbox (none, w) = await t inbox w

  abbrev pub after_inbox :
      ℤ → ℕ → Text → Text → Text → (Text ⊎ ℕ) × W → (Option ErrorMessage × Text) × W
  after_inbox t conn inbox subject content (inl e, w) = ((some (bus_error e), []), w)
  after_inbox t conn inbox subject content (inr sr, w) =
      let (result, w') = after_publish t inbox (bus.publish_msg conn subject inbox content w) in
      (result, bus.unsubscribe (some sr) w')

  -- `RequestRaw`, with `globalTimeout`.
  unfoldable pub request_raw : ℤ → Text → Text → Nats W → (Option ErrorMessage × Text) × Nats W
  request_raw t subject content s =
      let ring = next s.ring in
      let (inbox, w) = bus.new_inbox s.world in
      let (result, w') =
        after_inbox t ring.here inbox subject content (bus.chan_subscribe ring.here inbox w) in
      (result, record s { ring = ring; world = w' })

  -- The provider as an implementation for `NewSpecific`. The function that ends a subscription is
  -- known by the number of its channel.
  unfoldable pub nats_specific : Codec → ℤ → Specific (Nats W)
  nats_specific c t = record {
    subscribe_raw = λ p group s. let (h, s') = subscribe_raw p group s in ((none, h.channel), s');
    request_raw = request_raw t;
    publish_raw = publish_raw;
    new_call = new_call c;
  }

  abbrev each_conn : (ℕ → W → W) → Ring → W → W
  each_conn f ring w = for_each f (ring.here ∷ ring.rest) w

  -- `Close`: all connections are drained, then closed, and the ring is given up.
  unfoldable pub close : Nats W → W
  close s = each_conn bus.close s.ring (each_conn bus.drain s.ring s.world)
