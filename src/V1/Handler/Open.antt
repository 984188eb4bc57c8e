-- ===== src/V1/Handler/Open.antt =====
-- A handler of version 1 that needs no authorization (pkg/service/providers/nats/nats-provider.go).
use spike_broker.Prelude.{◌≡◌, ap, ◌∙◌, inr, false, Option, none, some, [], arith, Text, codes}
use spike_broker.Go.{Go, value, continue, raise, of_error, ◌>>=◌}
use spike_broker.Broker.Message.{plain}
use spike_broker.V1.Rids.{Pattern}
use spike_broker.V1.Request.{CallRequest, ErrorRequest, Codec}
use spike_broker.V1.Handler.{
  serve, handle, recovered, unmarshal, decide, authorize, run_access, finish,
}

module _ {W : Type 0} (c : Codec) (raw : Text → Text → W → (Option ErrorRequest × Text) × W)
    (send : Text → Text → W → W) (p : Pattern) (hc : CallRequest → Go W (Unit {0})) where
  decide_open :
      (m : CallRequest) (w : W)
      → p.authenticated ≡ false
      → decide c raw p [] m w ≡ (value (inr m), w)
  unfolding decide authorize run_access
  decide_open m w h = ground (arith, h)

  serve_open :
      (content reply : Text) (m : CallRequest) (w : W)
      → p.authenticated ≡ false
      → unmarshal c content reply ≡ some m
      → serve c raw send p [] hc content reply w ≡ hc m w
  unfolding serve
  serve_open content reply m w h e =
      ap (λ (o : Option CallRequest). served o w) e
      ∙ ap (continue (finish c raw send p [] hc m)) (decide_open m w h)
    where
      served : Option CallRequest → Go W (Unit {0})
      served o = elim o [
        | none ↦ raise (of_error (plain (codes "json")))
        | some n ↦ decide c raw p [] n >>= finish c raw send p [] hc n
      ]

  -- The handler is called with the call as it was read, and what it returns is the end.
  pub handle_open :
      (content reply : Text) (m : CallRequest) (g : ErrorRequest) (w v : W)
      → p.authenticated ≡ false
      → unmarshal c content reply ≡ some m
      → hc m w ≡ (value tt, v)
      → handle c raw send p [] hc content reply (g, w) ≡ (value tt, (g, v))
  unfolding handle
  handle_open content reply m g w v h e returns =
      ap (recovered c raw send p [] hc reply g) (serve_open content reply m w h e ∙ returns)
