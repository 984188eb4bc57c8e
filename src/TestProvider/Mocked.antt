-- ===== src/TestProvider/Mocked.antt =====
-- What a request to the test provider (v2/pkg/broker/providers/testProvider) comes to.
use spike_broker.Prelude.{
  ◌≡◌, refl, ap, ◌∙◌, false, Option, none, some, List, [], ◌∷◌, arith, Text, Dict, lookup,
}
use spike_broker.Rids.Pattern.{nil, bytes, str, json, Any, endpoint_name}
use spike_broker.Broker.Message.{
  ErrorMessage, Message, GoError, of_message, of_traceable, plain, as_message, internal_error,
}
use spike_broker.Broker.Call.{Codec, decoded}
use spike_broker.Broker.Provider.{raw, Target, read_answer, succeeds, fails, store}
use spike_broker.Go.{value}
use spike_broker.TestProvider.{
  TestCall, WireCodec, Mock, broker_error, request_mocked, run_mock, set_error, success, test_ok,
  fresh, no_callbacks, test_error, test_to_json, end_mock,
}

-- The encoders are right on a call of the tests.
pub record IsEncoded (c : Codec) (wire : WireCodec) (t : TestCall) : Type 0 where
  pub encoded : Text
  pub writes : c.pattern_to_json t.pattern ≡ some encoded
  pub reads : wire.read (wire.write encoded t.token t.payload) ≡ some (encoded, t.token, t.payload)
  pub names : c.pattern_from_json encoded ≡ decoded t.pattern

success-code :
    (c : Codec) (xs : List Any) {msg : Message} → success c xs ≡ value msg → msg.code_int ≡ 200
unfolding success
success-code c [] h = ground arith
success-code c (nil ∷ xs) h = ground arith
success-code c (bytes b ∷ xs) h = ground arith
success-code c (str s ∷ xs) h = ground arith
success-code c (json v ∷ xs) h = ground arith

broker_error-as_message : (e : GoError) → broker_error (some e) ≡ as_message e
unfolding broker_error internal_error
broker_error-as_message (of_message e) = refl
broker_error-as_message (of_traceable t) = refl
broker_error-as_message (plain s) = refl

module _ {W : Type 0} (c : Codec) (wire : WireCodec) (mocks : Dict (Mock W)) (t : TestCall) where
  -- The mock of the pattern's name sees the pattern, the token and the payload that were sent.
  pub request_mocked-test_to_json :
      (w : W)
      → IsEncoded c wire t
      → request_mocked c wire mocks (test_to_json c wire t) w
        ≡ run_mock c mocks (fresh t.pattern t.token t.payload) w
  unfolding request_mocked test_to_json
  request_mocked-test_to_json w h = ground (arith, h.writes, h.reads, h.names)

  run_mock-found :
      (f : Mock W) (w : W)
      → lookup (endpoint_name t.pattern) mocks ≡ some f
      → run_mock c mocks (fresh t.pattern t.token t.payload) w
        ≡ end_mock c (f (fresh t.pattern t.token t.payload, w))
  unfolding run_mock
  run_mock-found f w h = ground (arith, h)

  -- A request whose mock answers by OK: the requester stores what was answered. The encoders are
  -- right on the call and on the answer, which can be marshalled.
  pub request_mocked-test_ok :
      (xs : List Any) (msg : Message) (w : W)
      → IsEncoded c wire t
      → lookup (endpoint_name t.pattern) mocks ≡ some (test_ok no_callbacks c xs)
      → success c xs ≡ value msg
      → c.error_from_json (c.message_to_json false msg)
        ≡ some (record { message = msg; message_str = [] })
      → (answer : Text) × (request_mocked c wire mocks (test_to_json c wire t) w
          ≡ (value (none, answer), w))
        × (read_answer c raw (none, answer) ≡ succeeds (some msg.data_iface))
  unfolding test_ok read_answer store
  request_mocked-test_ok xs msg w h found answered decodes = (
    c.message_to_json false msg,
    request_mocked-test_to_json w h
        ∙ run_mock-found (test_ok no_callbacks c xs) w found
        ∙ ground (arith, answered),
    ground (arith, success-code c xs answered),
  )

  -- A request whose mock answers by Error: the requester gets the error, whatever its code; over
  -- the network one with a code from 101 to 299 is a success. The encoders are right on the call.
  pub request_mocked-test_error :
      (e : GoError) (rs : Target) (w : W)
      → IsEncoded c wire t
      → lookup (endpoint_name t.pattern) mocks ≡ some (test_error no_callbacks (some e))
      → (answer : Option ErrorMessage × Text) × (request_mocked c wire mocks
            (test_to_json c wire t)
            w
          ≡ (value answer, w))
        × (read_answer c rs answer ≡ fails (as_message e))
  unfolding set_error read_answer
  request_mocked-test_error e rs w h found = (
    (some (broker_error (some e)), []),
    request_mocked-test_to_json w h ∙ run_mock-found (test_error no_callbacks (some e)) w found,
    ap fails (broker_error-as_message e),
  )
