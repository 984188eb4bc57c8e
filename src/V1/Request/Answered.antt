-- ===== src/V1/Request/Answered.antt =====
-- What a requester of version 1 sees of an answer (pkg/service/request/request.go and Request of
-- pkg/service/providers/nats/nats-provider.go).
use spike_broker.Prelude.{◌≡◌, refl, ◌≢◌, inl, inr, Option, none, some, [], arith, Text}
use spike_broker.Rids.Pattern.{Any, nil, bytes, str, json}
use spike_broker.Go.{value}
use spike_broker.V1.Request.{
  Codec, CallRequest, ErrorRequest, answer, ok, error_request, read_answer, send_error, with_text,
}

answer-code :
    (c : Codec) (result : Option Any) {e : ErrorRequest} → answer c result ≡ some e → e.code ≡ 200
unfolding answer
answer-code c none h = ground arith
answer-code c (some (str s)) h = ground arith
answer-code c (some (bytes b)) h = ground arith
answer-code c (some nil) h = ground arith
answer-code c (some (json v)) h = ground arith

-- The text of its Go error changes neither the code, nor the message, nor the data.
with_text-keeps :
    (o : Option Text) (e : ErrorRequest)
    → ((with_text o e).code ≡ e.code)
      × ((with_text o e).message ≡ e.message)
      × ((with_text o e).content ≡ e.content)
with_text-keeps none e = (refl, refl, refl)
with_text-keeps (some t) e = (refl, refl, refl)

module _ {W : Type 0} (c : Codec) (send : Text → Text → W → W) (m : CallRequest) where
  -- The data that a service answers with by OK reaches the requester. The call expects a reply, the
  -- answer can be marshalled, and the text sent decodes to it.
  pub ok-read_answer :
      (result : Option Any) (e : ErrorRequest) (w : W)
      → m.reply ≢ []
      → answer c result ≡ some e
      → c.error_from_json (c.error_to_json e) ≡ e
      → (sent : Text) × (ok c send m result w ≡ (value tt, send m.reply sent w))
        × (read_answer c sent ≡ inr e.content)
  unfolding ok read_answer
  ok-read_answer result e w expects answered decodes =
      (c.error_to_json e, ground arith, ground (arith, answer-code c result answered))

  -- An error that a service answers with reaches the requester, with the text of its Go error. The
  -- call expects a reply, the code of the error is not 200, it has a message, and the text sent
  -- decodes to it, whatever becomes of the Go error.
  pub error_request-read_answer :
      (e : ErrorRequest) (x : Option Text) (w : W)
      → m.reply ≢ []
      → e.code ≢ 200
      → e.message ≢ []
      → c.error_from_json (c.error_to_json (with_text e.error e))
        ≡ record (with_text e.error e) { error = x }
      → (sent : Text) × (error_request c send m (some e) none w ≡ (value tt, send m.reply sent w))
        × (read_answer c sent ≡ inl (record (with_text e.error e) { error = x }))
  unfolding error_request send_error read_answer
  error_request-read_answer e x w expects bad named decodes = (
    c.error_to_json (with_text e.error e),
    ground arith,
    ground (arith, with_text-keeps e.error e),
  )

  -- An error without a message is a success to the requester, whatever its code. The call expects a
  -- reply, and the text sent decodes to the error, whatever becomes of the Go error.
  pub error_request-hidden :
      (e : ErrorRequest) (x : Option Text) (w : W)
      → m.reply ≢ []
      → e.message ≡ []
      → c.error_from_json (c.error_to_json (with_text e.error e))
        ≡ record (with_text e.error e) { error = x }
      → (sent : Text) × (error_request c send m (some e) none w ≡ (value tt, send m.reply sent w))
        × (read_answer c sent ≡ inr e.content)
  unfolding error_request send_error read_answer
  error_request-hidden e x w expects nameless decodes = (
    c.error_to_json (with_text e.error e),
    ground arith,
    ground (arith, with_text-keeps e.error e),
  )
