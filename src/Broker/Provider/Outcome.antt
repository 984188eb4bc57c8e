-- ===== src/Broker/Provider/Outcome.antt =====
-- What the requester sees of a service's answer: `Request` of specific-provider-base.go against
-- `OK` and `Error` of callbase.go.
use spike_broker.Prelude.{
  ℕ, ◌≤◌, ◌<◌, ◌≡◌, refl, ◌≢◌, ◌↔◌, ◌⊎◌, false, Option, none, some, [], arith, Text,
}
use spike_broker.Rids.Pattern.{Any, nil, bytes, str, json}
use spike_broker.Broker.Message.{
  ErrorMessage, Message, GoError, as_message, code, trace-as_message, TraceInfo,
}
use spike_broker.Broker.Call.{Codec, Call, ok, error, call_error, answer, reply}
use spike_broker.Broker.Provider.{Target, raw, fails, succeeds, read_answer, store, is_failure}
use spike_broker.Go.{value}
use spike_broker.Rids.Pattern.{Any}

is_failure_iff : (n : ℕ) → (is_failure n ≡ false) ↔ ((100 < n) × (n < 300))
is_failure_iff n = ground arith

read_some :
    (c : Codec) (result payload : Text) (o : Option ErrorMessage)
    → c.error_from_json result ≡ o
    → read_answer c raw (none, result) ≡ succeeds (some payload)
    → (m : ErrorMessage) × (o ≡ some m)
      × (100 < code m)
      × (code m < 300)
      × (m.message.data_iface ≡ payload)
unfolding read_answer store
read_some c result payload none e h = absurd (ground arith)
read_some c result payload (some m) e h = (m, refl, ground arith, ground arith, ground arith)

-- A request for raw bytes that the implementation has answered succeeds exactly when the answer is
-- a message with a code above 100 and below 300, and then stores the data of that message.
pub read_answer-succeeds_iff :
    (c : Codec) (result payload : Text)
    → (read_answer c raw (none, result) ≡ succeeds (some payload)) ↔ (
        (m : ErrorMessage) × (c.error_from_json result ≡ some m)
        × (100 < code m)
        × (code m < 300)
        × (m.message.data_iface ≡ payload))
unfolding read_answer store
read_answer-succeeds_iff c result payload = (
  read_some c result payload (c.error_from_json result) refl,
  λ (m, parsed, above, below, same). ground (arith, parsed, above, below, same),
)

answer-code :
    (c : Codec) (result : Option Any) {msg : Message}
    → answer c result ≡ some msg
    → msg.code_int ≡ 200
unfolding answer
answer-code c none h = ground arith
answer-code c (some (str s)) h = ground arith
answer-code c (some (bytes b)) h = ground arith
answer-code c (some nil) h = ground arith
answer-code c (some (json v)) h = ground arith

module _ {W : Type 0} (c : Codec) (send : Text → Text → W → W) (m : Call) where
  -- The data that a service answers with by `OK` is what the requester stores as raw bytes. The
  -- call expects a reply, the answer can be marshalled, and the text sent decodes to it.
  pub ok-answered :
      (result : Option Any) (msg : Message) (w : W)
      → m.reply_str ≢ []
      → answer c result ≡ some msg
      → c.error_from_json (c.message_to_json m.is_v1 msg)
        ≡ some (record { message = msg; message_str = [] })
      → (payload : Text) × (ok c send m result w ≡ (value tt, send m.reply_str payload w))
        × (read_answer c raw (none, payload) ≡ succeeds (some msg.data_iface))
  unfolding ok read_answer store
  ok-answered result msg w expects answered decodes =
      (c.message_to_json m.is_v1 msg, ground arith, ground (arith, answer-code c result answered))

  -- An error that a service answers with reaches the requester as it stands, or as an internal
  -- error if it is none of the broker's, provided that its code is at most 100 or at least 300.
  pub call_error-answered :
      (caller : Option TraceInfo) (e : GoError) (rs : Target) (w : W)
      → m.reply_str ≢ []
      → c.error_from_json (c.error_to_json (as_message e)) ≡ some (as_message e)
      → (code (as_message e) ≤ 100) ⊎ (300 ≤ code (as_message e))
      → (payload : Text) × (call_error c send caller m (some e) w
          ≡ (value tt, send m.reply_str payload w))
        × (read_answer c rs (none, payload) ≡ fails (as_message e))
  unfolding call_error error reply read_answer
  call_error-answered caller e rs w expects decodes far =
      (c.error_to_json (as_message e), rw (trace-as_message caller e) (ground arith), ground arith)

  -- An error of the broker with a code above 100 and below 300 is no error to the requester: the
  -- request succeeds, and stores the data of the error.
  pub call_error-hidden :
      (caller : Option TraceInfo) (e : GoError) (w : W)
      → m.reply_str ≢ []
      → c.error_from_json (c.error_to_json (as_message e)) ≡ some (as_message e)
      → 100 < code (as_message e)
      → code (as_message e) < 300
      → (payload : Text) × (call_error c send caller m (some e) w
          ≡ (value tt, send m.reply_str payload w))
        × (read_answer c raw (none, payload) ≡ succeeds (some (as_message e).message.data_iface))
  unfolding call_error error reply read_answer store
  call_error-hidden caller e w expects decodes above below =
      (c.error_to_json (as_message e), rw (trace-as_message caller e) (ground arith), ground arith)
