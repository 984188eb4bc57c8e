-- ===== src/V1/Nats/Interface.antt =====
-- The provider of pkg/service/providers/nats/nats-provider.go as the `request.Provider` of a WebSocket
-- connection (pkg/service/request/provider.go).
use spike_broker.Prelude.{ℕ, ◌⊎◌, inl, inr, Option, none, some, Text, codes}
use spike_broker.Prelude.Decimal.{ℤ}
use spike_broker.Go.{value}
use spike_broker.Nats.Provider.{Bus, Nats, Handle}
use spike_broker.V1.Request.{Codec}
use spike_broker.V1.Handler.{request}
use spike_broker.V1.Connection.{Provider, Peer}
use spike_broker.V1.Nats.{request_raw, publish, publish_raw, monitor}

-- A monitor is known by its channel. What its handler does with a message is in V1/Handler.
abbrev pub monitored : Option Handle → Text ⊎ ℕ
monitored none = inl (codes "nats")
monitored (some h) = inr h.channel

unfoldable pub nats_provider : {W : Type 0} → Bus W → Codec → ℤ → Provider (Nats W)
nats_provider bus c t = record {
  request = request c (request_raw bus t);
  publish = λ p m token s. let (e, s') = publish bus c p (some m) token s in (value e, s');
  monitor = λ group p f s. let (h, s') = monitor bus group p s in (value (monitored h), s');
  publish_raw = λ subject content s. (publish_raw bus subject content s).1;
}

-- A connection whose broker is a NATS provider.
abbrev pub over_nats : {W : Type 0} → Bus W → ℤ → Peer (Nats W) → Peer (Nats W)
over_nats bus t peer = record peer { provider = nats_provider bus peer.codec t }
