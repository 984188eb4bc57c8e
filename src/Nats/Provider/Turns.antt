-- ===== src/Nats/Provider/Turns.antt =====
-- The connections of a provider (v2/pkg/broker/providers/nats/provider.go): there are always as
-- many as `NewNatsProvider` has made, and each serves every subscription once.
use mathlib.Core.Path.{subst}
use spike_broker.Prelude.{
  ℕ, zero, suc, ◌+◌, ◌≡◌, sym, ap, ◌∙◌, ◌⊎◌, inl, inr, Option, none, some, List, [], arith, Text,
}
use spike_broker.Prelude.Decimal.{ℤ}
use spike_broker.Rids.Pattern.{Pattern, endpoint_name_specific}
use spike_broker.Go.{Exit, value, panic, Go, >>=-eq-value}
use spike_broker.Nats.Ring.{
  Ring, size, size_of, size-add_conn, size-next, turns, for_each, with_conns, with_conns-turns,
  add_conn,
}
use spike_broker.Nats.Subject.{wildcards}
use spike_broker.Nats.Provider.{
  Bus, Nats, Handle, max_conns, connected, connect_more, connect_all, new_nats_provider,
  subscribe_on, subscribe_raw, publish_raw, request_raw, end_subscription,
}

-- A ring with `n` connections, unless the call has panicked.
abbrev Makes : {W : Type 0} → ℕ → Exit Ring × W → Type 0
Makes n (value r, w) = size r ≡ n
Makes n (panic q, w) = Unit

module _ {W : Type 0} (bus : Bus W) where
  connected-Makes :
      (n : ℕ) (rest : Ring → Go W Ring) (o : Option Ring) (x : (Text ⊎ ℕ) × W)
      → ((r : Ring) (w : W) → size r ≡ suc (size_of o) → Makes n (rest r w))
      → Makes n (connected bus rest o x)
  connected-Makes n rest o (inl e, w) h = tt
  connected-Makes n rest o (inr c, w) h = h (add_conn o c) w (size-add_conn o c)

  connect_more-Makes : (n : ℕ) (r : Ring) (w : W) → Makes (n + size r) (connect_more bus n r w)
  unfolding connect_more
  connect_more-Makes zero r w = omega arith
  connect_more-Makes (suc n) r w =
      connected-Makes (suc n + size r) (connect_more bus n) (some r) (bus.connect w) λ r' w' e.
        subst (λ (k : ℕ). Makes k (connect_more bus n r' w')) (omega (arith, e))
          (connect_more-Makes n r' w')

  connect_all-Makes : (w : W) → Makes max_conns (connect_all bus w)
  unfolding connect_all
  connect_all-Makes w =
      connected-Makes max_conns (connect_more bus 19) none (bus.connect w) λ r w' e.
        subst (λ (k : ℕ). Makes k (connect_more bus 19 r w')) (omega (arith, e))
          (connect_more-Makes 19 r w')

  -- What a provider may do between two subscriptions.
  pub data Step (s t : Nats W) : Type 0 where
    publishing : (subject content : Text) → t ≡ (publish_raw bus subject content s).1 → Step s t
    requesting :
        (timeout : ℤ) (subject content : Text)
        → t ≡ (request_raw bus timeout subject content s).1
        → Step s t
    subscribing : (p : Pattern) (group : Text) → t ≡ (subscribe_raw bus p group s).1 → Step s t
    ending : (h : Handle) → t ≡ end_subscription bus h s → Step s t

  -- The states of a provider that `NewNatsProvider` has made.
  pub data Reachable : Nats W → Type 0 where
    made : {s : Nats W} (w v : W) → new_nats_provider bus w ≡ (value s, v) → Reachable s
    step : {s t : Nats W} → Reachable s → Step s t → Reachable t

  -- The subscriptions of a pattern, one on each connection of the provider.
  abbrev pub subscribe_each : Pattern → Text → Nats W → List (Option ℕ) × W
  subscribe_each p group s =
      for_each (subscribe_on bus (wildcards (endpoint_name_specific p)) group s.channels)
        (turns s.ring) ([], s.world)

  subscribe_raw-each :
      (p : Pattern) (group : Text) (s : Nats W)
      → size s.ring ≡ max_conns
      → subscribe_raw bus p group s ≡ (
        record { unsubs = (subscribe_each p group s).0; channel = s.channels },
        record s { channels = suc s.channels; world = (subscribe_each p group s).1 },
      )
  unfolding subscribe_raw
  subscribe_raw-each p group s e =
      let body = subscribe_on bus (wildcards (endpoint_name_specific p)) group s.channels in
      ap
        (λ (x : Ring × (List (Option ℕ) × W)). (
          record { unsubs = x.1.0; channel = s.channels },
          record s { ring = x.0; channels = suc s.channels; world = x.1.1 },
        ))
        (ap (λ (k : ℕ). with_conns k body s.ring ([], s.world)) (sym e)
          ∙ with_conns-turns body s.ring ([], s.world))

  Step-size : {s t : Nats W} → Step s t → size s.ring ≡ max_conns → size t.ring ≡ max_conns
  unfolding publish_raw request_raw end_subscription
  Step-size {s} (publishing subject content e) h =
      ap (λ (x : Nats W). size x.ring) e ∙ size-next s.ring ∙ h
  Step-size {s} (requesting timeout subject content e) h =
      ap (λ (x : Nats W). size x.ring) e ∙ size-next s.ring ∙ h
  Step-size {s} (subscribing p group e) h =
      ap (λ (x : Nats W). size x.ring) e
      ∙ ap (λ (x : Handle × Nats W). size x.1.ring) (subscribe_raw-each p group s h)
      ∙ h
  Step-size {s} (ending x e) h = ap (λ (x : Nats W). size x.ring) e ∙ h

  Reachable-size : {s : Nats W} → Reachable s → size s.ring ≡ max_conns
  unfolding new_nats_provider
  Reachable-size (made w v e) =
      let (ring, u, made_ring, made_it) = >>=-eq-value (connect_all bus) _ w e in
      let count : size ring ≡ max_conns = subst (Makes max_conns) made_ring (connect_all-Makes w) in
      ground arith
  Reachable-size (step r st) = Step-size st (Reachable-size r)

  -- In every state that a provider reaches after `NewNatsProvider`, a subscription is made once on
  -- each of its connections, in the order of the ring and through one new channel, and the ring
  -- points to the connection to which it pointed before.
  pub subscribe_raw-Reachable :
      (p : Pattern) (group : Text) (s : Nats W)
      → Reachable s
      → subscribe_raw bus p group s ≡ (
        record { unsubs = (subscribe_each p group s).0; channel = s.channels },
        record s { channels = suc s.channels; world = (subscribe_each p group s).1 },
      )
  subscribe_raw-Reachable p group s r = subscribe_raw-each p group s (Reachable-size r)
