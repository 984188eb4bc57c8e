-- ===== src/V1/Socket/Permission.antt =====
-- The permission that a message of a WebSocket client of version 1 asks for (pkg/route/socket),
-- against that of a call over the broker (pkg/service/providers/nats/nats-provider.go).
use spike_broker.Prelude.{
  ℕ, ◌≡◌, sym, ap, ◌∙◌, ◌≢◌, ◌↔◌, inl, inr, true, false, ◌∷◌, ◌++◌, arith, Bool-cases, length,
  length-append, is_empty, Text,
}
use spike_broker.V1.Rids.{Pattern, endpoint_no_method}
use spike_broker.V1.Connection.{socket_permission}
use spike_broker.V1.Rest.Permission.{asked}
use spike_broker.V1.Auth.{HavePermissionRequest}

full_endpoint :
    (p : Pattern)
    → is_empty p.endpoint ≡ false
    → endpoint_no_method p ≡ p.service ++ (b'.' ∷ p.endpoint)
unfolding endpoint_no_method
full_endpoint p full = ground (arith, full)

bare_endpoint : (p : Pattern) → is_empty p.endpoint ≡ true → endpoint_no_method p ≡ p.service
unfolding endpoint_no_method
bare_endpoint p bare = ground (arith, bare)

longer : (s t : Text) (c : ℕ) → s ++ (c ∷ t) ≢ s
longer s t c h = absurd (omega (arith, length-append s (c ∷ t), ap length h))

-- A message to a WebSocket asks for the permission that a call over the broker asks for, exactly if
-- the endpoint of the pattern is not empty: that of a service alone is asked for with a dot behind
-- it. The client's method is the pattern's, as `PatternFromEndpoint` demands.
pub socket_permission-asked_iff :
    (p : Pattern)
    → (socket_permission p.service p.method p ≡ asked p) ↔ (is_empty p.endpoint ≡ false)
unfolding socket_permission
socket_permission-asked_iff p = elim (Bool-cases (is_empty p.endpoint)) [
  | inl bare ↦ (
    (λ h. absurd (
        longer p.service p.endpoint b'.'
          (ap (λ (x : HavePermissionRequest). x.endpoint) h ∙ bare_endpoint p bare))),
    (λ h. absurd (ground (arith, bare, h))),
  )
  | inr full ↦ (
    (λ h. full),
    (λ h.
        ap (λ (e : Text). record { service = p.service; endpoint = e; method = p.method })
          (sym (full_endpoint p full))),
  )
]
