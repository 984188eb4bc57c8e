-- ===== src/Tests/Nats.antt =====
-- Extended timeouts.
use spike_broker.Prelude.{◌≡◌, refl, [], ◌∷◌, arith, codes}
use spike_broker.Prelude.Decimal.{pos, negsuc, digits}
use spike_broker.Text.{has_prefix}
use spike_broker.Nats.Response.{
  clamp_timeout, timeout_message, get_timeout, extend, message, expired, process_response, payload,
  failed,
}
use spike_broker.Nats.Response.Waiting.{
  get_timeout-timeout_message, process_response-extensions, extensions,
}
use spike_broker.Broker.Message.{error_timeout}

message_5s : timeout_message (pos 5000000000) ≡ codes "timeout:5000000000"
unfolding timeout_message clamp_timeout digits
message_5s = refl

-- A negative duration is raised to 100 ms.
get_timeout-timeout_message_example :
    get_timeout (timeout_message (negsuc 4)) ≡ extend (pos 100000000)
unfolding clamp_timeout
get_timeout-timeout_message_example = get_timeout-timeout_message (negsuc 4) (omega arith)

process_response-extensions_example :
    (process_response (pos 7) (extensions (pos 5000000000 ∷ []) (message (codes "ok") ∷ []))
      ≡ (pos 7 ∷ pos 5000000000 ∷ [], payload (codes "ok")))
    × (process_response (pos 7) (extensions (pos 5000000000 ∷ []) (expired ∷ []))
        ≡ (pos 7 ∷ pos 5000000000 ∷ [], failed error_timeout))
unfolding clamp_timeout has_prefix
process_response-extensions_example =
    process_response-extensions (pos 5000000000 ∷ []) (pos 7) (codes "ok") [] (omega arith, tt)
      (λ e. cc) refl
