-- ===== src/Nats/Response/Waiting.antt =====
-- A service extends the timeout of a request: `Timeout` of callbase.go against `processResponse`
-- of the NATS provider.
use spike_broker.Prelude.{
  ◌<◌, ◌≡◌, refl, ap, ◌∙◌, ◌≢◌, true, false, List, [], ◌∷◌, arith, is_empty, All, Text, codes,
  text_eq_refl, ◌++◌,
}
use spike_broker.Prelude.Decimal.{
  ℤ, pos, digits, parse_int-digits, digits-IsDecimal, digits-ne-nil, IsDecimal, int64_bound,
}
use spike_broker.Text.{split, has_prefix, has_byte}
use spike_broker.Text.Split.{Free, split-append, split_of_Free}
use spike_broker.Text.Replace.{has_prefix-append}
use spike_broker.Nats.Response.{
  clamp_timeout, timeout_message, timeout_prefix, get_timeout, timeout_parts, read_timeout, extend,
  on_message, Received, message, expired, process_response, payload, failed,
}
use spike_broker.Broker.Message.{error_timeout}

decimal-Free : (s : Text) → IsDecimal s → Free b':' s
unfolding has_byte
decimal-Free [] h = refl
decimal-Free (c ∷ s) h = ground (arith, decimal-Free s h.1)

timeout_message-parts :
    (t : ℤ) → split b':' (timeout_message t) ≡ codes "timeout" ∷ digits (clamp_timeout t) ∷ []
unfolding timeout_message
timeout_message-parts t =
    split-append b':' (codes "timeout") (digits (clamp_timeout t)) (unfold has_byte in refl)
    ∙ ap (λ r. codes "timeout" ∷ r)
        (split_of_Free b':' _ (decimal-Free _ (digits-IsDecimal (clamp_timeout t))))

is_empty_ne : (s : Text) → s ≢ [] → is_empty s ≡ false
is_empty_ne [] h = absurd (h refl)
is_empty_ne (c ∷ s) h = refl

-- The message that a service sends to extend the timeout is read as an extension to the same
-- duration, raised to 100 ms, provided that it is below 2⁶³.
pub get_timeout-timeout_message :
    (t : ℤ)
    → clamp_timeout t < int64_bound
    → get_timeout (timeout_message t) ≡ extend (pos (clamp_timeout t))
unfolding get_timeout timeout_parts read_timeout
get_timeout-timeout_message t h =
    let begins : has_prefix (timeout_message t) timeout_prefix ≡ true =
      unfold timeout_message in has_prefix-append timeout_prefix (digits (clamp_timeout t)) in
    ground (
      arith,
      begins,
      timeout_message-parts t,
      text_eq_refl (codes "timeout"),
      is_empty_ne (digits (clamp_timeout t)) (digits-ne-nil (clamp_timeout t)),
      parse_int-digits (clamp_timeout t) h,
    )

abbrev pub extensions : List ℤ → List Received → List Received
extensions [] rs = rs
extensions (t ∷ ts) rs = message (timeout_message t) ∷ extensions ts rs

abbrev pub clamped : List ℤ → List ℤ
clamped [] = []
clamped (t ∷ ts) = pos (clamp_timeout t) ∷ clamped ts

abbrev pub InRange : ℤ → Type 0
InRange t = clamp_timeout t < int64_bound

process_response-extend :
    (t u : ℤ) (rs : List Received)
    → InRange u
    → process_response t (message (timeout_message u) ∷ rs) ≡ (
      t ∷ (process_response (pos (clamp_timeout u)) rs).0,
      (process_response (pos (clamp_timeout u)) rs).1,
    )
unfolding process_response on_message
process_response-extend t u rs h = ground (arith, get_timeout-timeout_message u h)

process_response-end :
    (t : ℤ) (resp : Text) (rs : List Received)
    → resp ≢ []
    → has_prefix resp timeout_prefix ≡ false
    → process_response t (message resp ∷ rs) ≡ (t ∷ [], payload resp)
unfolding process_response on_message get_timeout
process_response-end t resp rs ne other = ground (arith, other, is_empty_ne resp ne)

-- A request to which a service sends any number of extensions waits once for each with the timeout
-- that it was last given, and then returns the response, or fails by timeout if the timer ends
-- first. The durations are below 2⁶³, and the response is neither empty nor begins like an
-- extension.
pub process_response-extensions :
    (ts : List ℤ) (t : ℤ) (resp : Text) (rs : List Received)
    → All InRange ts
    → resp ≢ []
    → has_prefix resp timeout_prefix ≡ false
    → (process_response t (extensions ts (message resp ∷ rs)) ≡ (t ∷ clamped ts, payload resp))
      × (process_response t (extensions ts (expired ∷ rs)) ≡ (t ∷ clamped ts, failed error_timeout))
process_response-extensions [] t resp rs h ne other =
    (process_response-end t resp rs ne other, unfold process_response in refl)
process_response-extensions (u ∷ ts) t resp rs h ne other =
    let (answered, ended) =
      process_response-extensions ts (pos (clamp_timeout u)) resp rs h.1 ne other in
    (
      process_response-extend t u (extensions ts (message resp ∷ rs)) h.0
          ∙ ap (λ r. (t ∷ r.0, r.1)) answered,
      process_response-extend t u (extensions ts (expired ∷ rs)) h.0
          ∙ ap (λ r. (t ∷ r.0, r.1)) ended,
    )

pub extensions-append :
    (ts : List ℤ) (rs qs : List Received) → extensions ts rs ++ qs ≡ extensions ts (rs ++ qs)
extensions-append [] rs qs = refl
extensions-append (t ∷ ts) rs qs =
    ap (λ (l : List Received). message (timeout_message t) ∷ l) (extensions-append ts rs qs)
