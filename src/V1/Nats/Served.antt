-- ===== src/V1/Nats/Served.antt =====
-- A request of version 1 that a service answers, after any number of extensions of the timeout
-- (pkg/service/providers/nats/nats-provider.go).
use spike_broker.Prelude.{
  ◌≡◌, ap, ◌∙◌, false, Option, none, some, List, [], ◌∷◌, ◌++◌, arith, All, Text,
}
use spike_broker.Prelude.Decimal.{ℤ, pos}
use spike_broker.Text.{has_prefix, split}
use spike_broker.Go.{value}
use spike_broker.Nats.Ring.{next}
use spike_broker.Nats.Response as Wire
use spike_broker.Nats.Response.{
  Received, message, expired, timeout_message, timeout_prefix, clamp_timeout,
}
use spike_broker.Nats.Response.Waiting.{
  extensions, extensions-append, InRange, clamped, get_timeout-timeout_message,
}
use spike_broker.Nats.Provider.{Bus, Nats}
use spike_broker.Nats.Provider.Requests.{IsServed}
use spike_broker.V1.Rids.{Pattern, endpoint_name}
use spike_broker.V1.Request.{CallRequest, ErrorRequest, Codec, read_answer}
use spike_broker.V1.Handler.{request, prepared, by_answer}
use spike_broker.V1.Nats.Response.{
  get_timeout, timeout_parts, read_timeout, extend, process_response, on_message, payload,
}
use spike_broker.V1.Nats.{request_raw, await}

-- An extension that version 2 reads, version 1 reads too.
read_timeout-extend :
    (s : Text) (t : ℤ) → Wire.read_timeout s ≡ Wire.extend t → read_timeout s ≡ extend t
unfolding read_timeout Wire.read_timeout
read_timeout-extend s t h = ground (arith, h)

timeout_parts-extend :
    (parts : List Text) (t : ℤ)
    → Wire.timeout_parts parts ≡ Wire.extend t
    → timeout_parts parts ≡ extend t
unfolding timeout_parts Wire.timeout_parts
timeout_parts-extend [] t h = absurd (ground (arith, h))
timeout_parts-extend (x ∷ []) t h = absurd (ground (arith, h))
timeout_parts-extend (x ∷ y ∷ []) t h = ground (arith, h, read_timeout-extend y t)
timeout_parts-extend (x ∷ y ∷ z ∷ parts) t h = absurd (ground (arith, h))

get_timeout-extend :
    (s : Text) (t : ℤ) → Wire.get_timeout s ≡ Wire.extend t → get_timeout s ≡ extend t
unfolding get_timeout Wire.get_timeout
get_timeout-extend s t h = ground (arith, h, timeout_parts-extend (split b':' s) t)

extended :
    (t u : ℤ) (rs : List Received)
    → InRange u
    → process_response t (message (timeout_message u) ∷ rs) ≡ (
      t ∷ (process_response (pos (clamp_timeout u)) rs).0,
      (process_response (pos (clamp_timeout u)) rs).1,
    )
unfolding process_response on_message
extended t u rs h = ground (
  arith,
  get_timeout-extend (timeout_message u) (pos (clamp_timeout u)) (get_timeout-timeout_message u h),
)

answered :
    (t : ℤ) (resp : Text) (rs : List Received)
    → has_prefix resp timeout_prefix ≡ false
    → process_response t (message resp ∷ rs) ≡ (t ∷ [], payload resp)
unfolding process_response on_message get_timeout
answered t resp rs other = ground (arith, other)

process_response-extensions :
    (ts : List ℤ) (t : ℤ) (resp : Text) (rs : List Received)
    → All InRange ts
    → has_prefix resp timeout_prefix ≡ false
    → process_response t (extensions ts (message resp ∷ rs)) ≡ (t ∷ clamped ts, payload resp)
process_response-extensions [] t resp rs h other = answered t resp rs other
process_response-extensions (u ∷ ts) t resp rs h other =
    extended t u (extensions ts (message resp ∷ rs)) h.0
    ∙ ap (λ r. (t ∷ r.0, r.1))
        (process_response-extensions ts (pos (clamp_timeout u)) resp rs h.1 other)

module _ {W : Type 0} (bus : Bus W) (t : ℤ) where
  await-answered :
      (inbox resp : Text) (ts : List ℤ) (later : List Received) (w v : W)
      → bus.received inbox w ≡ (extensions ts (message resp ∷ later), v)
      → All InRange ts
      → has_prefix resp timeout_prefix ≡ false
      → await bus t inbox w ≡ ((none, resp), v)
  unfolding await
  await-answered inbox resp ts later w v e range other =
      let whole : process_response t (extensions ts (message resp ∷ later) ++ (expired ∷ []))
          ≡ (t ∷ clamped ts, payload resp) =
        ap (process_response t) (extensions-append ts (message resp ∷ later) (expired ∷ []))
        ∙ process_response-extensions ts t resp (later ++ (expired ∷ [])) range other in
      ground (arith, e, whole)

  request_raw-answered :
      (subject content : Text) (s : Nats W) (ts : List ℤ) (resp : Text)
      (served : IsServed bus s subject content ts resp)
      → All InRange ts
      → has_prefix resp timeout_prefix ≡ false
      → request_raw bus t subject content s ≡ (
        (none, resp),
        record s {
          ring = next s.ring;
          world = bus.unsubscribe (some served.subscription) served.done;
        },
      )
  unfolding request_raw
  request_raw-answered subject content s ts resp served range other = ground (
    arith,
    served.makes,
    served.subscribes,
    served.sends,
    await-answered served.inbox resp ts served.later served.sent served.done served.receives range
        other,
  )

  -- A request of version 1 over NATS gives what `Request` makes of the service's answer, after any
  -- number of extensions of the timeout below 2⁶³; the subscription to the inbox is ended, and the
  -- next request takes the next connection. The calls of package nats succeed, and the answer does
  -- not begin like an extension.
  pub request-IsServed :
      (c : Codec) (p : Pattern) (m : CallRequest) (token : Text) (s : Nats W) (ts : List ℤ)
      (resp : Text)
      (served : IsServed bus s (endpoint_name p) (c.call_to_json (prepared p m token)) ts resp)
      → All InRange ts
      → has_prefix resp timeout_prefix ≡ false
      → request c (request_raw bus t) p m token s ≡ (
        value (read_answer c resp),
        record s {
          ring = next s.ring;
          world = bus.unsubscribe (some served.subscription) served.done;
        },
      )
  unfolding request
  request-IsServed c p m token s ts resp served range other =
      ap (λ (r : (Option ErrorRequest × Text) × Nats W). (value (by_answer c r.0), r.1))
        (request_raw-answered (endpoint_name p) (c.call_to_json (prepared p m token)) s ts resp
          served range other)
