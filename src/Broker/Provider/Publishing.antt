-- ===== src/Broker/Provider/Publishing.antt =====
-- When `Publish` and `Monitor` of specific-provider-base.go reach the implementation.
use spike_broker.Prelude.{
  ◌<◌, ◌≡◌, refl, ◌≢◌, ◌&&◌, ◌||◌, Option, none, some, [], ◌∷◌, ◌++◌, arith, ltb, ◌==◌,
  if◌then◌else◌, Text, codes, text_eq, text_eq_iff, text_eq_ne, leb, false, true,
}
use spike_broker.Text.{join, has_byte}
use spike_broker.Text.Split.{Free, split-append, split_of_Free}
use spike_broker.Rids.Verb
use spike_broker.Rids.Pattern.{
  Pattern, Any, nil, bytes, version, method, service, endpoint_name, endpoint_name_specific,
  new_pattern_from_string, from_parts, pattern_of_verb, parsed, new_pattern,
}
use spike_broker.Broker.Message.{ErrorMessage, code, new_error, internal_error, plain}
use spike_broker.Broker.Call.{Codec, Call, to_json}
use spike_broker.Broker.Provider.{
  Specific, request, ask, check, publish, monitor, forbids, read_answer, store, with_token, nowhere,
}
use spike_broker.Go.{value}
use spike_broker.Rids.Method.{make_internal, new_method}

-- The internal pattern by which a service is asked.
abbrev pub validator : Text → Text → Pattern
validator name endpoint = new_pattern (make_internal (new_method name [] [] [] endpoint 2 []))

validator-parsed :
    (name endpoint : Text)
    → Free b'.' name
    → Free b'.' endpoint
    → new_pattern_from_string (name ++ (b'.' ∷ endpoint)) Verb.internal
      ≡ parsed (validator name endpoint)
unfolding new_pattern_from_string from_parts pattern_of_verb text_eq join
validator-parsed name endpoint h k =
    rw (split-append b'.' name endpoint h, split_of_Free b'.' endpoint k)

validator-name :
    (name endpoint : Text)
    → endpoint ≢ []
    → endpoint_name (validator name endpoint)
      ≡ name ++ (b'.' ∷ (endpoint ++ (b'.' ∷ Verb.internal)))
unfolding endpoint_name new_pattern make_internal new_method
validator-name name endpoint h = ground arith

-- What the answer to the validating request decides: `none` permits. A message permits with a
-- code above 100 and below 300; an unavailable service permits as well.
abbrev pub verdict : Codec → Option ErrorMessage × Text → Option ErrorMessage
verdict c (some e, result) = if code e == 503 then none else some e
verdict c (none, result) = elim (c.error_from_json result) [
  | none ↦ some (new_error (codes "invalid payload") 500 result)
  | some m ↦ if (ltb 100 (code m) && ltb (code m) 300) || (code m == 503) then none else some m
]

forbids-verdict :
    (c : Codec) (result : Option ErrorMessage × Text)
    → forbids (read_answer c nowhere result).error ≡ verdict c result
unfolding forbids read_answer store
forbids-verdict c (some e, result) = refl
forbids-verdict c (none, result) = ground arith

abbrev pub publish_endpoint : Text
publish_endpoint = codes "validatePublish"

abbrev pub monitor_endpoint : Text
monitor_endpoint = codes "validateMonitor"

-- A pattern of version 2 for an event, with a token, and what the code makes on the way to the
-- validating service.
pub record IsAsking {W : Type 0} (c : Codec) (impl : Specific W) (endpoint : Text) (p : Pattern)
    (q : Call) : Type 0 where
  pub versioned : 1 < version p
  pub event : method p ≡ Verb.event
  pub plain_service : Free b'.' (service p)
  pub encoded : Text
  pub encodes : c.pattern_to_json p ≡ some encoded
  pub calls : impl.new_call (validator (service p) endpoint) (bytes encoded) ≡ some q

module _ {W : Type 0} (c : Codec) (impl : Specific W) (p : Pattern) where
  -- The subject on which the service of the pattern is asked.
  abbrev pub subject : Text → Text
  subject endpoint = service p ++ (b'.' ∷ (endpoint ++ (b'.' ∷ Verb.internal)))

  ask-verdict :
      (endpoint token : Text) (q : Call) (w : W)
      → IsAsking c impl endpoint p q
      → Free b'.' endpoint
      → endpoint ≢ []
      → let (answer, w') =
          impl.request_raw (subject endpoint) (to_json c (with_token (some token) q)) w in
        ask c impl endpoint p token w ≡ (value (verdict c answer), w')
  unfolding ask request
  ask-verdict endpoint token q w a free ne =
      let sent = impl.request_raw (subject endpoint) (to_json c (with_token (some token) q)) w in
      ground (
        arith,
        a.encodes,
        validator-parsed (service p) endpoint a.plain_service free,
        a.calls,
        validator-name (service p) endpoint ne,
        forbids-verdict c sent.0,
      )

  check-verdict :
      (endpoint refusal token : Text) (q : Call) (w : W)
      → IsAsking c impl endpoint p q
      → Free b'.' endpoint
      → endpoint ≢ []
      → let (answer, w') =
          impl.request_raw (subject endpoint) (to_json c (with_token (some token) q)) w in
        check c impl endpoint refusal p (some token) w ≡ (value (verdict c answer), w')
  unfolding check
  check-verdict endpoint refusal token q w a free ne =
      let old : leb (version p) 1 ≡ false = let v = a.versioned in ground arith in
      let event : text_eq (method p) Verb.event ≡ true =
        (text_eq_iff (method p) Verb.event).1 a.event in
      rw (old, event, check) (ask-verdict endpoint token q w a free ne)

  -- An event of version 2 with a token: the service of the pattern is asked once, on the subject
  -- that ends in `validatePublish.INTERNAL`; where its answer forbids, the error is returned and
  -- nothing is published, and where it permits, the call goes out on the pattern's specific name.
  pub publish-verdict :
      (payload : Any) (token : Text) (q m meta : Call) (w : W)
      → IsAsking c impl publish_endpoint p q
      → impl.new_call p payload ≡ some m
      → impl.new_call p nil ≡ some meta
      → let (answer, w') =
          impl.request_raw (subject publish_endpoint) (to_json c (with_token (some token) q)) w in
        publish c impl p payload (some token) w ≡ elim (verdict c answer) [
          | some e ↦ (value (some e), w')
          | none ↦
              let (r, w'') =
                impl.publish_raw
                  (endpoint_name_specific p)
                  (to_json c (with_token (some token) m))
                  w' in
              (value r, w'')
        ]
  unfolding publish
  publish-verdict payload token q m meta w a made made_meta = ground (
    arith,
    made,
    made_meta,
    check-verdict publish_endpoint (codes "invalid RID, can only publish on Event Methods") token q
        w a (unfold has_byte in refl) (λ e. cc),
  )

  -- The same for monitoring: the implementation subscribes only where the answer permits.
  pub monitor-verdict :
      (group token : Text) (q : Call) (w : W)
      → IsAsking c impl monitor_endpoint p q
      → let (answer, w') =
          impl.request_raw (subject monitor_endpoint) (to_json c (with_token (some token) q)) w in
        monitor c impl group p (some token) w ≡ elim (verdict c answer) [
          | some e ↦ (value (some e, 0), w')
          | none ↦ let (r, w'') = impl.subscribe_raw p group w' in (value r, w'')
        ]
  unfolding monitor
  monitor-verdict group token q w a = ground (
    arith,
    check-verdict monitor_endpoint (codes "invalid RID, can only monitor Event Methods") token q w a
        (unfold has_byte in refl) (λ e. cc),
  )

  -- A pattern of version 2 that is no event is neither published nor monitored, with or without a
  -- token: the result is an internal error and the implementation is not reached.
  pub publish-monitor-not_event :
      (payload : Any) (token : Option Text) (group : Text) (m meta : Call) (w : W)
      → 1 < version p
      → method p ≢ Verb.event
      → impl.new_call p payload ≡ some m
      → impl.new_call p nil ≡ some meta
      → (publish c impl p payload token w ≡ (
        value (
            some (
              internal_error
                (some (plain (codes "invalid RID, can only publish on Event Methods"))))),
        w,
      ))
        × (monitor c impl group p token w ≡ (
          value (
            some (
                internal_error
                  (some (plain (codes "invalid RID, can only monitor Event Methods")))),
            0,
          ),
          w,
        ))
  unfolding publish monitor check
  publish-monitor-not_event payload token group m meta w v2 other made made_meta = (
    ground (arith, made, made_meta, text_eq_ne (method p) Verb.event other),
    ground (arith, text_eq_ne (method p) Verb.event other),
  )
