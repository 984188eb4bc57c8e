-- ===== src/TestProvider.antt =====
-- v2/pkg/broker/providers/testProvider: the provider on which the unit tests of services run.
-- call.go and access.go are the calls and accesses; test-provider.go answers requests and
-- publications by functions that the test supplies, its mocks.
pub mod Mocked
use spike_broker.Prelude.{
  ℕ, zero, suc, ◌+◌, ◌-◌, ◌*◌, ◌/◌, ◌%◌, ◌^◌, ◌≤◌, ◌<◌, ◌≡◌, refl, sym, ap, ◌∙◌, ◌≢◌, ◌↔◌, ◌⊎◌, inl,
  inr, Bool, true, false, not, ◌&&◌, ◌||◌, Option, none, some, List, [], ◌∷◌, ◌++◌, map, arith, ltb,
  leb, ◌==◌, if◌then◌else◌, ==_iff, Bool-cases, Option-cases, length, length-append, is_empty, drop,
  find, filter, drop_last, All, All-append, All-left, Text, codes, text_eq, text_eq_refl,
  text_eq_iff, text_eq_ne, Dict, lookup, insert, lookup-insert, contains,
}
use spike_broker.Rids.Pattern.{Pattern, Any, nil, bytes, str, json, endpoint_name, params}
use spike_broker.Broker.Message.{
  ErrorMessage, Message, GoError, of_message, of_traceable, plain, error_access_denied,
  error_not_found, error_service_unavailable, internal_error, status_ok,
}
use spike_broker.Broker.Call.{Codec, Decoded, malformed, no_method, decoded}
use spike_broker.Go.{Go, Exit, value, panic, of_error, of_value, pure, raise, ◌>>=◌, ◌>>◌}

-- `callRequest`, and the `accessRequest` that embeds it, but for the functions that it calls back.
pub record TestCall : Type 0 where
  pub pattern : Pattern
  pub error : Option ErrorMessage
  pub result : Message
  pub token : Text
  pub payload : Text

abbrev pub no_message : Message
no_message = record { code_int = 0; data_iface = [] }

abbrev pub fresh : Pattern → Text → Text → TestCall
fresh p token payload = record {
  pattern = p;
  error = none;
  result = no_message;
  token = token;
  payload = payload;
}

-- `NewCall`, and `NewAccess`, which has the same fields. An error of json.Marshal leaves no data.
unfoldable pub new_test_call : Codec → Pattern → Any → Text → TestCall
new_test_call c p payload token =
    fresh p token (elim (c.any_to_json payload) [ none ↦ [] | some b ↦ b ])

-- `okF` and `errF`; the functions that a nil stands for do nothing.
pub record Callbacks (W : Type 0) : Type 0 where
  pub ok_f : List Any → Go W (Unit {0})
  pub err_f : ErrorMessage → Go W (Unit {0})

abbrev pub no_callbacks : {W : Type 0} → Callbacks W
no_callbacks = record { ok_f = λ xs. pure tt; err_f = λ e. pure tt }

-- The operations of a call act on it and on the world.
abbrev pub OnCall : Type 0 → Type 0 → Type 0
OnCall W A = Go (TestCall × W) A

module _ {W : Type 0} where
  abbrev pub at_call : {A : Type 0} → TestCall → Exit A × W → Exit A × (TestCall × W)
  at_call t (r, w) = (r, (t, w))

  -- A call of something that does not see the test's call.
  abbrev pub on_world : {A : Type 0} → Go W A → OnCall W A
  on_world m (t, w) = at_call t (m w)

  abbrev pub update : (TestCall → TestCall) → OnCall W (Unit {0})
  update f (t, w) = (value tt, (f t, w))

-- What `OK` answers with. PointerFromInterface panics on nil.
unfoldable pub success : Codec → List Any → Exit Message
success c [] = value (record { code_int = status_ok; data_iface = [] })
success c (str s ∷ xs) = value (record { code_int = status_ok; data_iface = s })
success c (bytes b ∷ xs) = value (record { code_int = status_ok; data_iface = b })
success c (nil ∷ xs) = panic (of_error (plain (codes "reflect")))
success c (json v ∷ xs) = elim (c.any_to_json (json v)) [
  | none ↦ panic (of_error (plain (codes "json")))
  | some b ↦ value (record { code_int = status_ok; data_iface = b })
]

-- The error of the broker that `Error` and `AccessDenied` make of theirs.
unfoldable pub broker_error : Option GoError → ErrorMessage
broker_error (some (of_message e)) = e
broker_error (some (of_traceable t)) = t.error_message
broker_error (some (plain s)) = internal_error (some (plain s))
broker_error none = internal_error none

module _ {W : Type 0} (fs : Callbacks W) where
  abbrev keep_result : Exit Message → OnCall W (Unit {0})
  keep_result (value m) = update (λ t. record t { result = m })
  keep_result (panic q) = raise q

  -- `OK`.
  unfoldable pub test_ok : Codec → List Any → OnCall W (Unit {0})
  test_ok c xs =
      update (λ t. record t { error = none }) >> on_world (fs.ok_f xs) >> keep_result (success c xs)

  unfoldable pub set_error : ErrorMessage → OnCall W (Unit {0})
  set_error e = update (λ t. record t { error = some e }) >> on_world (fs.err_f e)

  -- `InternalError`.
  abbrev pub test_internal_error : Option GoError → OnCall W (Unit {0})
  test_internal_error e = set_error (internal_error e)

  -- `Error`; the texts that it also takes are not used.
  abbrev pub test_error : Option GoError → OnCall W (Unit {0})
  test_error e = set_error (broker_error e)

  -- `NotFound`.
  abbrev pub test_not_found : OnCall W (Unit {0})
  test_not_found = set_error error_not_found

  -- `AccessDenied`, which takes an error or none.
  unfoldable pub test_access_denied : Option (Option GoError) → OnCall W (Unit {0})
  test_access_denied none = set_error error_access_denied
  test_access_denied (some e) = set_error (broker_error e)

  -- `AccessGranted` keeps an error that the access has.
  abbrev pub test_access_granted : OnCall W (Unit {0})
  test_access_granted = on_world (fs.ok_f [])

-- `PathParam`: an unknown key gives the empty text.
unfoldable pub test_path_param : Text → TestCall → Text
test_path_param key t = elim (lookup key (params t.pattern)) [ none ↦ [] | some v ↦ v ]

-- The object of the texts `pattern`, `token` and `payload`, as encoding/json writes and reads it.
pub record WireCodec : Type 0 where
  pub write : Text → Text → Text → Text
  pub read : Text → Option (Text × Text × Text)

-- `ToJSON`: where marshalling fails there is no data.
unfoldable pub test_to_json : Codec → WireCodec → TestCall → Text
test_to_json c wire t = elim (c.pattern_to_json t.pattern) [
  | none ↦ []
  | some p ↦ wire.write p t.token t.payload
]

-- `RequestMock`.
abbrev pub Mock : Type 0 → Type 0
Mock W = OnCall W (Unit {0})

-- What the provider returns: an error, or data.
abbrev pub Answer : Type 0
Answer = Option ErrorMessage × Text

abbrev pub mock_answer : Codec → TestCall → Answer
mock_answer c t = elim t.error [
  | some e ↦ (some e, [])
  | none ↦ (none, c.message_to_json false t.result)
]

abbrev decode_failed : Answer
decode_failed = (some (internal_error (some (plain (codes "json")))), [])

module _ {W : Type 0} (c : Codec) where
  abbrev pub end_mock : Exit (Unit {0}) × (TestCall × W) → Exit Answer × W
  end_mock (value a, (t, w)) = (value (mock_answer c t), w)
  end_mock (panic q, (t, w)) = (panic q, w)

  -- `requestMocked` once the call is decoded.
  unfoldable pub run_mock : Dict (Mock W) → TestCall → Go W Answer
  run_mock mocks t w = elim (lookup (endpoint_name t.pattern) mocks) [
    | none ↦ (value (some error_service_unavailable, []), w)
    | some f ↦ end_mock (f (t, w))
  ]

  -- `requestMocked`. A pattern without a method makes EndpointName panic.
  unfoldable pub request_mocked : WireCodec → Dict (Mock W) → Text → Go W Answer
  request_mocked wire mocks sent = elim (wire.read sent) [
    | none ↦ pure decode_failed
    | some (p, token, payload) ↦ elim (c.pattern_from_json p) [
      | malformed ↦ pure decode_failed
      | no_method ↦ raise (of_value (codes "nil"))
      | decoded q ↦ run_mock mocks (fresh q token payload)
    ]
  ]

-- `Mocks`, with the interfaces of type `I` that a service is given.
pub record Mocks (W I : Type 0) : Type 0 where
  pub requests : Dict (Mock W)
  pub publishes : Dict (Mock W)
  pub external_apis : Option (Dict I)
  pub repository : Option I

module _ {W I : Type 0} (c : Codec) (wire : WireCodec) where
  -- `RequestRaw` and `PublishRaw`; the subject is not used.
  unfoldable pub test_request_raw : Mocks W I → Text → Text → Go W Answer
  test_request_raw mocks subject sent = request_mocked c wire mocks.requests sent

  unfoldable pub test_publish_raw : Mocks W I → Text → Text → Go W (Option ErrorMessage)
  test_publish_raw mocks subject sent = request_mocked c wire mocks.publishes sent >>= λ r. pure r.0
