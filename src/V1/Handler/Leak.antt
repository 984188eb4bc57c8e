-- ===== src/V1/Handler/Leak.antt =====
-- The global error of version 1 (pkg/service/providers/nats/nats-provider.go) keeps the text of a
-- panic.
use spike_broker.Prelude.{
  ◌≡◌, sym, ap, ◌∙◌, ◌≢◌, Option, none, some, List, [], ◌++◌, arith, Text, codes,
}
use spike_broker.Broker.Message.{GoError, error_text}
use spike_broker.Go.{Go, value, panic, of_error, of_value, continue, ◌>>◌, PanicValue, Exit}
use spike_broker.V1.Rids.{Pattern, endpoint_name}
use spike_broker.V1.Request.{
  CallRequest, ErrorRequest, Codec, error_request, send_error, empty_request,
}
use spike_broker.V1.Handler.{AccessPart, serve, handle, recovered, blame}

error_request-value :
    {W : Type 0} (c : Codec) (send : Text → Text → W → W) (m : CallRequest) (e : ErrorRequest)
    (w : W)
    → (error_request c send m (some e) none w).0 ≡ value tt
unfolding error_request send_error
error_request-value c send m e w = ground arith

module _ {W : Type 0} (c : Codec) (raw : Text → Text → W → (Option ErrorRequest × Text) × W)
    (send : Text → Text → W → W) (p : Pattern) (parts : List (AccessPart W))
    (hc : CallRequest → Go W (Unit {0})) where
  -- The error that goes out after both panics, the second with the value `v`.
  abbrev pub leaked : ErrorRequest → GoError → Text → ErrorRequest
  leaked g e v =
      let text = codes "request: " ++ (endpoint_name p ++ (codes ": " ++ v)) in
      record g { message = error_text e; error = some text; error_message = text }

  abbrev answer_of : Text → ErrorRequest → W → W
  answer_of reply g u =
      (error_request c send (record empty_request { reply = reply }) (some g) none u).1

  handle-panic :
      (content reply : Text) (q : PanicValue) (g : ErrorRequest) (w u : W)
      → serve c raw send p parts hc content reply w ≡ (panic q, u)
      → handle c raw send p parts hc content reply (g, w)
        ≡ (value tt, (blame p q g, answer_of reply (blame p q g) u))
  unfolding handle
  handle-panic content reply q g w u h =
      ap (recovered c raw send p parts hc reply g) h
      ∙ ap (λ (r : Exit (Unit {0})). (r, (blame p q g, answer_of reply (blame p q g) u)))
          (error_request-value c send (record empty_request { reply = reply }) (blame p q g) u)

  -- What goes out when a panic with the value `v` ends the handling of a message.
  answered :
      (reply v : Text) (g : ErrorRequest) (e : GoError) (w : W)
      → reply ≢ []
      → (error_request c send
          (record empty_request { reply = reply })
          (some (blame p (of_value v) (blame p (of_error e) g)))
          none
          w).1
        ≡ send reply (c.error_to_json (leaked g e v)) w
  unfolding error_request send_error blame
  answered reply v g e w expects = ground arith

  -- When the handling of one message has panicked with an error, and that of a later one panics
  -- with another value, the requester of the later one gets the text of the first error as its
  -- message. The later message expects a reply.
  pub handle-leaked :
      (first later reply_1 reply_2 v : Text) (g : ErrorRequest) (e : GoError) (w u x : W)
      → reply_2 ≢ []
      → serve c raw send p parts hc first reply_1 w ≡ (panic (of_error e), u)
      → serve c raw send p parts hc later reply_2
          (handle c raw send p parts hc first reply_1 (g, w)).1.1
        ≡ (panic (of_value v), x)
      → ((handle c raw send p parts hc first reply_1 >> handle c raw send p parts hc later reply_2)
          (g, w)).1.1
        ≡ send reply_2 (c.error_to_json (leaked g e v)) x
  handle-leaked first later reply_1 reply_2 v g e w u x expects panics again =
      let g' = blame p (of_error e) g in
      let one = handle-panic first reply_1 (of_error e) g w u panics in
      let two = handle-panic later reply_2 (of_value v) g' (answer_of reply_1 g' u) x (
        sym (
          ap
            (λ (r : Exit (Unit {0}) × (ErrorRequest × W)).
              serve c raw send p parts hc later reply_2 r.1.1)
            one)
        ∙ again) in
      ap
        (λ (r : Exit (Unit {0}) × (ErrorRequest × W)).
          (continue (λ _. handle c raw send p parts hc later reply_2) r).1.1)
        one
      ∙ ap (λ (r : Exit (Unit {0}) × (ErrorRequest × W)). r.1.1) two
      ∙ answered reply_2 v g e x expects
