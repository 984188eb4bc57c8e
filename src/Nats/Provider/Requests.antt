-- ===== src/Nats/Provider/Requests.antt =====
-- A request from the provider that a service uses (v2/pkg/broker/specific-provider-base.go) through
-- the connections of package nats (v2/pkg/broker/providers/nats/provider.go).
use spike_broker.Prelude.{
  ℕ, ◌≡◌, ap, ◌∙◌, ◌≢◌, inr, false, Option, none, some, List, [], ◌∷◌, ◌++◌, arith, All, Text,
}
use spike_broker.Prelude.Decimal.{ℤ}
use spike_broker.Text.{has_prefix}
use spike_broker.Rids.Pattern.{Pattern, Any, endpoint_name}
use spike_broker.Broker.Call.{Codec, Call, new_call, to_json}
use spike_broker.Broker.Provider
use spike_broker.Broker.Provider.{raw, read_answer, with_token}
use spike_broker.Go.{value}
use spike_broker.Nats.Ring.{next}
use spike_broker.Nats.Response.{
  Received, message, expired, payload, process_response, timeout_prefix,
}
use spike_broker.Nats.Response.Waiting.{
  extensions, extensions-append, InRange, clamped, process_response-extensions,
}
use spike_broker.Nats.Provider.{Bus, Nats, await, request_raw, nats_specific}

module _ {W : Type 0} (bus : Bus W) where
  -- The calls of package nats that succeed in a request: the subscription to the inbox, the
  -- message to the service, and what comes back.
  pub record IsServed (s : Nats W) (subject content : Text) (ts : List ℤ) (resp : Text)
      : Type 0 where
    pub inbox : Text
    pub made : W
    pub makes : bus.new_inbox s.world ≡ (inbox, made)
    pub subscription : ℕ
    pub subscribed : W
    pub subscribes :
        bus.chan_subscribe (next s.ring).here inbox made ≡ (inr subscription, subscribed)
    pub sent : W
    pub sends : bus.publish_msg (next s.ring).here subject inbox content subscribed ≡ (none, sent)
    pub later : List Received
    pub done : W
    pub receives : bus.received inbox sent ≡ (extensions ts (message resp ∷ later), done)

  await-answered :
      (t : ℤ) (inbox resp : Text) (ts : List ℤ) (later : List Received) (w v : W)
      → bus.received inbox w ≡ (extensions ts (message resp ∷ later), v)
      → All InRange ts
      → resp ≢ []
      → has_prefix resp timeout_prefix ≡ false
      → await bus t inbox w ≡ ((none, resp), v)
  unfolding await
  await-answered t inbox resp ts later w v e range ne other =
      let whole : process_response t (extensions ts (message resp ∷ later) ++ (expired ∷ []))
          ≡ (t ∷ clamped ts, payload resp) =
        ap (process_response t) (extensions-append ts (message resp ∷ later) (expired ∷ []))
        ∙ (process_response-extensions ts t resp (later ++ (expired ∷ [])) range ne other).0 in
      ground (arith, e, whole)

  request_raw-answered :
      (t : ℤ) (subject content : Text) (s : Nats W) (ts : List ℤ) (resp : Text)
      (served : IsServed s subject content ts resp)
      → All InRange ts
      → resp ≢ []
      → has_prefix resp timeout_prefix ≡ false
      → request_raw bus t subject content s ≡ (
        (none, resp),
        record s {
          ring = next s.ring;
          world = bus.unsubscribe (some served.subscription) served.done;
        },
      )
  unfolding request_raw
  request_raw-answered t subject content s ts resp served range ne other = ground (
    arith,
    served.makes,
    served.subscribes,
    served.sends,
    await-answered t served.inbox resp ts served.later served.sent served.done served.receives range
        ne other,
  )

  -- A request over NATS: if the service answers, after any number of extensions of the timeout, the
  -- requester gets what `Request` makes of that answer; the subscription to the inbox is ended, and
  -- the next request takes the next connection. The calls of package nats succeed, the extensions
  -- are below 2⁶³, and the answer is neither empty nor begins like an extension.
  pub request-served :
      (c : Codec) (t : ℤ) (p : Pattern) (content : Any) (token : Option Text) (call : Call)
      (s : Nats W) (ts : List ℤ) (resp : Text)
      (served : IsServed s (endpoint_name p) (to_json c (with_token token call)) ts resp)
      → new_call c p content ≡ some call
      → All InRange ts
      → resp ≢ []
      → has_prefix resp timeout_prefix ≡ false
      → Provider.request c (nats_specific bus c t) p content raw token s ≡ (
        value (read_answer c raw (none, resp)),
        record s {
          ring = next s.ring;
          world = bus.unsubscribe (some served.subscription) served.done;
        },
      )
  unfolding nats_specific Provider.request
  request-served c t p content token call s ts resp served made range ne other = ground (
    arith,
    made,
    request_raw-answered t (endpoint_name p) (to_json c (with_token token call)) s ts resp served
        range ne other,
  )
