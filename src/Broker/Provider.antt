-- ===== src/Broker/Provider.antt =====
-- v2/pkg/broker/specific-provider.go and specific-provider-base.go: the provider that services
-- use, over an implementation that carries subjects and bytes.
pub mod Outcome
pub mod Publishing
use spike_broker.Prelude.{
  ℕ, zero, suc, ◌+◌, ◌-◌, ◌*◌, ◌/◌, ◌%◌, ◌^◌, ◌≤◌, ◌<◌, ◌≡◌, refl, sym, ap, ◌∙◌, ◌≢◌, ◌↔◌, ◌⊎◌, inl,
  inr, Bool, true, false, not, ◌&&◌, ◌||◌, Option, none, some, List, [], ◌∷◌, ◌++◌, map, arith, ltb,
  leb, ◌==◌, if◌then◌else◌, ==_iff, Bool-cases, Option-cases, length, length-append, is_empty, drop,
  find, filter, drop_last, All, All-append, All-left, Text, codes, text_eq, text_eq_refl,
  text_eq_iff, text_eq_ne, Dict, lookup, insert, lookup-insert, contains,
}
use spike_broker.Rids.Verb
use spike_broker.Rids.Pattern.{
  Pattern, Any, version, method, service, endpoint_name, new_pattern_from_string, Parsed, parsed,
  invalid_endpoint, invalid_verb, nil, bytes, endpoint_name_specific,
}
use spike_broker.Broker.Message.{
  ErrorMessage, code, internal_error, new_error, status_ok, status_service_unavailable, plain,
  status_internal_server_error,
}
use spike_broker.Broker.Call.{Codec, Call, to_json, set_token}
use spike_broker.Go.{Go, ◌>>=◌, panic, pure, raise, value, of_value}

-- The interface `SpecificProvider`, on a state of the implementation. The function that ends a
-- subscription is given by a number. `new_call` may panic.
pub record Specific (W : Type 0) : Type 0 where
  pub subscribe_raw : Pattern → Text → W → (Option ErrorMessage × ℕ) × W
  pub request_raw : Text → Text → W → (Option ErrorMessage × Text) × W
  pub publish_raw : Text → Text → W → Option ErrorMessage × W
  pub new_call : Pattern → Any → Option Call

-- Where `Request` stores the result: nowhere, as the bytes that came, in a `[]byte`, or in another
-- value, by its JSON text.
pub data Target : Type 0 where
  nowhere raw in_bytes in_value : Target

-- The error of a request, and what was stored.
pub record Reply : Type 0 where
  pub error : Option ErrorMessage
  pub stored : Option Text

abbrev pub fails : ErrorMessage → Reply
fails e = record { error = some e; stored = none }

abbrev pub succeeds : Option Text → Reply
succeeds r = record { error = none; stored = r }

abbrev decode_error : ErrorMessage
decode_error = internal_error (some (plain (codes "json")))

-- `math.Abs(float64(code - http.StatusOK)) >= 100`.
abbrev pub is_failure : ℕ → Bool
is_failure n = leb 100 ((n - status_ok) + (status_ok - n))

-- The switch on the type of `rs`.
unfoldable pub store : Codec → Target → Text → Reply
store c nowhere payload = succeeds none
store c raw payload = succeeds (some payload)
store c in_bytes payload = elim (c.bytes_from_json payload) [
  | some b ↦ succeeds (some b)
  | none ↦ elim (c.bytes_from_json (c.bytes_to_json payload)) [
    | some b ↦ succeeds (some b)
    | none ↦ fails decode_error
  ]
]
store c in_value payload = elim (c.value_from_json payload) [
  | some v ↦ succeeds (some v)
  | none ↦ fails decode_error
]

-- What `Request` makes of the answer of the implementation.
unfoldable pub read_answer : Codec → Target → Option ErrorMessage × Text → Reply
read_answer c rs (some e, result) = fails e
read_answer c rs (none, result) = elim (c.error_from_json result) [
  | none ↦ fails (new_error (codes "invalid payload") status_internal_server_error result)
  | some m ↦ if is_failure (code m) then fails m else store c rs m.message.data_iface
]

-- `len(token) > 0 && len(token[0]) > 0`: the first of the variadic tokens, when it is not empty.
abbrev pub with_token : Option Text → Call → Call
with_token none m = m
with_token (some t) m = if is_empty t then m else set_token t m

-- The error of the validating request, but for the code of an unavailable service.
unfoldable pub forbids : Option ErrorMessage → Option ErrorMessage
forbids none = none
forbids (some e) = if code e == status_service_unavailable then none else some e

module _ {W : Type 0} (c : Codec) (impl : Specific W) where
  -- The implementation is asked by the generic name of the pattern.
  unfoldable pub request : Pattern → Any → Target → Option Text → Go W Reply
  request p payload rs token w = elim (impl.new_call p payload) [
    | none ↦ (panic (of_value (codes "json")), w)
    | some m ↦
        let (result, w') = impl.request_raw (endpoint_name p) (to_json c (with_token token m)) w in
        (value (read_answer c rs result), w')
  ]

  -- `Get`.
  unfoldable pub get : Pattern → Target → Option Text → Go W Reply
  get p rs token = request p nil rs token

  -- The request to `<service>.validateMonitor` or `<service>.validatePublish`, and what it
  -- forbids: an unavailable service forbids nothing. `none` is the permission.
  unfoldable pub ask : Text → Pattern → Text → Go W (Option ErrorMessage)
  ask endpoint p token = elim (c.pattern_to_json p) [
    | none ↦ pure (some decode_error)
    | some encoded ↦ elim (new_pattern_from_string (service p ++ (b'.' ∷ endpoint)) Verb.internal) [
      | invalid_verb ↦ raise (of_value (codes "pattern: invalid method type"))
      | invalid_endpoint t ↦ pure (some (internal_error (some (plain t))))
      | parsed vp ↦ request vp (bytes encoded) nowhere (some token) >>= λ r. pure (forbids r.error)
    ]
  ]

  -- The check of `Monitor` and `Publish`, which only patterns of version 2 undergo.
  unfoldable pub check : Text → Text → Pattern → Option Text → Go W (Option ErrorMessage)
  check endpoint refusal p token =
      if leb (version p) 1
      then pure none
      else if not (text_eq (method p) Verb.event)
      then pure (some (internal_error (some (plain refusal))))
      else elim token [ none ↦ pure none | some t ↦ ask endpoint p t ]

  -- `Subscribe`: the service's name is the group.
  unfoldable pub subscribe : Pattern → Go W (Option ErrorMessage × ℕ)
  subscribe p w = let (r, w') = impl.subscribe_raw p (service p) w in (value r, w')

  unfoldable pub monitor : Text → Pattern → Option Text → Go W (Option ErrorMessage × ℕ)
  monitor group p token =
      check (codes "validateMonitor") (codes "invalid RID, can only monitor Event Methods") p token
      >>= λ denied. elim denied [
        | some e ↦ pure (some e, 0)
        | none ↦ λ w. let (r, w') = impl.subscribe_raw p group w in (value r, w')
      ]

  -- The calls are made before the checks; the second is not used further.
  unfoldable pub publish : Pattern → Any → Option Text → Go W (Option ErrorMessage)
  publish p payload token = elim (impl.new_call p payload) [
    | none ↦ raise (of_value (codes "json"))
    | some m ↦ elim (impl.new_call p nil) [
      | none ↦ raise (of_value (codes "json"))
      | some meta ↦
          check (codes "validatePublish") (codes "invalid RID, can only publish on Event Methods") p
            token
          >>= λ denied. elim denied [
            | some e ↦ pure (some e)
            | none ↦ λ w.
                let (r, w') =
                  impl.publish_raw (endpoint_name_specific p) (to_json c (with_token token m)) w in
                (value r, w')
          ]
    ]
  ]

  -- `Reply`.
  unfoldable pub reply : Text → Text → Go W (Option ErrorMessage)
  reply ep payload w = let (r, w') = impl.publish_raw ep payload w in (value r, w')
