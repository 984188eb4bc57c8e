-- ===== src/TestService.antt =====
-- v2/pkg/spike/api-test-service-impl.go and test-request-handler.go: the unit tests of a service,
-- which run its handlers and validators without a broker.
pub mod Access
pub mod Repository
pub mod Burst
pub mod Setup
use spike_broker.Prelude.{
  ℕ, zero, suc, ◌+◌, ◌-◌, ◌*◌, ◌/◌, ◌%◌, ◌^◌, ◌≤◌, ◌<◌, ◌≡◌, refl, sym, ap, ◌∙◌, ◌≢◌, ◌↔◌, ◌⊎◌, inl,
  inr, Bool, true, false, not, ◌&&◌, ◌||◌, Option, none, some, List, [], ◌∷◌, ◌++◌, map, arith, ltb,
  leb, ◌==◌, if◌then◌else◌, ==_iff, Bool-cases, Option-cases, length, length-append, is_empty, drop,
  find, filter, drop_last, All, All-append, All-left, Text, codes, text_eq, text_eq_refl,
  text_eq_iff, text_eq_ne, Dict, lookup, insert, lookup-insert, contains,
}
use spike_broker.Prelude.Decimal.{ℤ, pos, negsuc}
use spike_broker.Rids.Pattern.{Pattern, Any, is_public, endpoint_name}
use spike_broker.Broker.Message.{
  ErrorMessage, GoError, of_message, plain, error_service_unavailable, error_status_forbidden,
  error_status_unauthorized, internal_error,
}
use spike_broker.Broker.Call.{Codec}
use spike_broker.Api.Request.{panic_error, panic_text}
use spike_broker.Go.{
  Go, PanicValue, value, panic, of_error, of_value, pure, recovering, ◌>>=◌, act, ◌>>◌, Exit,
}
use spike_broker.TestProvider.{
  TestCall, OnCall, Callbacks, Mocks, Mock, on_world, test_access_denied, test_error, no_callbacks,
  new_test_call,
}

-- `broker.Subscription`: the handler and the validators act on a call or an access of the tests.
pub record TestSubscription (W : Type 0) : Type 0 where
  pub resource : Pattern
  pub handler : OnCall W (Unit {0})
  pub validators : List (OnCall W (Unit {0}))

-- The parts of `Options` that the tests use.
pub record TestOptions (W : Type 0) : Type 0 where
  pub handlers : List (TestSubscription W)
  pub validate_token : Text → Go W (Text × Bool)
  pub has_permission : TestCall → Go W Bool
  pub log : Text → W → W

-- What `handleErr` or `handleOk` is called with, if one of them is.
pub data Verdict : Type 0 where
  unhandled : Verdict
  failed : ℤ → ErrorMessage → Verdict
  passed : Verdict

module _ {W : Type 0} where
  -- The first handler of the pattern's name.
  unfoldable pub find_handler : Pattern → List (TestSubscription W) → Option (TestSubscription W)
  find_handler p [] = none
  find_handler p (h ∷ hs) =
      let rest = find_handler p hs in
      if text_eq (endpoint_name h.resource) (endpoint_name p) then some h else rest

  -- The loop over the validators, from the index `i`.
  unfoldable pub run_from : ℕ → List (OnCall W (Unit {0})) → OnCall W (Option (ℕ × ErrorMessage))
  run_from i [] = pure none
  run_from i (v ∷ vs) =
      let rest = run_from (suc i) vs in
      v >> λ (a, w). elim a.error [ some e ↦ (value (some (i, e)), (a, w)) | none ↦ rest (a, w) ]

  module _ (opts : TestOptions W) where
    abbrev pub judge : TestSubscription W → OnCall W Verdict
    judge h = run_from 0 h.validators >>= λ r. elim r [
      | none ↦ pure passed
      | some (i, e) ↦ pure (failed (pos i) e)
    ]

    abbrev pub on_permission : TestSubscription W → Bool → OnCall W Verdict
    on_permission h true = judge h
    on_permission h false = pure (failed (negsuc 1) error_status_forbidden)

    -- The authorizer sees the call with the processed token.
    abbrev pub on_token : TestSubscription W → TestCall → Text × Bool → OnCall W Verdict
    on_token h m (token, true) =
        on_world (opts.has_permission (record m { token = token })) >>= on_permission h
    on_token h m (token, false) = pure (failed (negsuc 0) error_status_unauthorized)

    -- The body of `handleAccessForTest` up to the call that ends it, on the access; `m` is the call.
    unfoldable pub examine : Pattern → TestCall → OnCall W Verdict
    examine p m (a, w) = elim (find_handler p opts.handlers) [
      | none ↦ (value unhandled, (a, w))
      | some h ↦
          if is_public p
          then judge h (a, w)
          else (on_world (opts.validate_token a.token) >>= on_token h m) (a, w)
    ]

    -- The call that ends it.
    unfoldable pub conclude :
        Go W (Unit {0}) → (ℤ → ErrorMessage → Go W (Unit {0})) → Verdict → OnCall W (Unit {0})
    conclude handle_ok handle_err unhandled =
        test_access_denied no_callbacks (some (some (of_message error_service_unavailable)))
    conclude handle_ok handle_err (failed i e) = on_world (handle_err i e)
    conclude handle_ok handle_err passed = on_world handle_ok

    abbrev pub logged : PanicValue → OnCall W (Unit {0})
    logged r = on_world (act (opts.log (codes "nats: panic on handler: " ++ panic_text r)))

    -- `handleAccessForTest`, on an access without functions to call back, as TestAccess makes it.
    unfoldable pub handle_access_for_test :
        Pattern
        → TestCall
        → Go W (Unit {0})
        → (ℤ → ErrorMessage → Go W (Unit {0}))
        → OnCall W (Unit {0})
    handle_access_for_test p m handle_ok handle_err =
        recovering
          (λ r.
            logged r
            >> test_access_denied no_callbacks (some (some (of_message (panic_error p r)))))
          (examine p m >>= conclude handle_ok handle_err)

    -- The body of `handleRequestForTest`.
    unfoldable pub handle_call : Callbacks W → Pattern → OnCall W (Unit {0})
    handle_call fs p = elim (find_handler p opts.handlers) [
      | none ↦ test_error fs (some (of_message error_service_unavailable))
      | some h ↦ h.handler
    ]

    -- `handleRequestForTest`.
    unfoldable pub handle_request_for_test : Callbacks W → Pattern → OnCall W (Unit {0})
    handle_request_for_test fs p =
        recovering (λ r. logged r >> test_error fs (some (of_message (panic_error p r))))
          (handle_call fs p)

-- What a service implements of WithRepository and WithExternalAPI, with interfaces of type `I`, and
-- SetMocks of the provider.
pub record Host (W I : Type 0) : Type 0 where
  pub with_repository : Option (Option I → Go W (Option GoError))
  pub with_external_api : Option (Text → I → Go W (Option GoError))
  pub set_mocks : Mocks W I → W → W

-- `APITestAccess` and `APITestRequestOrPublish`.
pub record ApiTestAccess (W I : Type 0) : Type 0 where
  pub pattern : Pattern
  pub repository : Option I
  pub payload : Any
  pub token : Text
  pub mocks : Mocks W I
  pub on_ok : Go W (Unit {0})
  pub on_err : ℤ → ErrorMessage → Go W (Unit {0})

pub record ApiTestRequest (W I : Type 0) : Type 0 where
  pub pattern : Pattern
  pub repository : Option I
  pub payload : Any
  pub token : Text
  pub mocks : Mocks W I
  pub callbacks : Callbacks W

abbrev pub wrapped : Option GoError → Option ErrorMessage
wrapped none = none
wrapped (some e) = some (internal_error (some e))

-- An error ends the test.
abbrev pub unless_failed :
    {W : Type 0} → Go W (Option ErrorMessage) → Option ErrorMessage → Go W (Option ErrorMessage)
unless_failed next none = next
unless_failed next (some e) = pure (some e)

abbrev pub uninitialized : ErrorMessage
uninitialized = internal_error (some (plain (codes "API not initialized")))

module _ {W I : Type 0} where
  -- The repository that TestAccess and TestRequestOrPublish set.
  unfoldable pub access_repository : ApiTestAccess W I → Option I
  access_repository prm = elim prm.repository [
    | some r ↦ some r
    | none ↦ elim prm.mocks.repository [ some r ↦ prm.repository | none ↦ none ]
  ]

  unfoldable pub request_repository : ApiTestRequest W I → Option I
  request_repository prm = elim prm.repository [
    | some r ↦ some r
    | none ↦ elim prm.mocks.repository [ some r ↦ prm.mocks.repository | none ↦ none ]
  ]

  module _ (host : Host W I) where
    unfoldable pub set_repository : Option I → Go W (Option ErrorMessage)
    set_repository repo = elim host.with_repository [
      | none ↦ pure none
      | some f ↦ f repo >>= λ e. pure (wrapped e)
    ]

    unfoldable pub set_each :
        (Text → I → Go W (Option GoError)) → Dict I → Go W (Option ErrorMessage)
    set_each f [] = pure none
    set_each f ((api, impl) ∷ rest) =
        let others = set_each f rest in f api impl >>= λ e. unless_failed others (wrapped e)

    unfoldable pub set_external_apis : Option (Dict I) → Go W (Option ErrorMessage)
    set_external_apis none = pure none
    set_external_apis (some apis) = elim host.with_external_api [
      | none ↦ pure none
      | some f ↦ set_each f apis
    ]

    -- What both tests do first.
    unfoldable pub prepare_test : Option I → Mocks W I → Go W (Option ErrorMessage)
    prepare_test repo mocks =
        set_repository repo
        >>= unless_failed (
            set_external_apis mocks.external_apis
            >>= unless_failed (act (host.set_mocks mocks) >> pure none))

    abbrev pub with_error : Exit (Unit {0}) × (TestCall × W) → Exit (Option ErrorMessage) × W
    with_error (value a, (t, w)) = (value t.error, w)
    with_error (panic q, (t, w)) = (panic q, w)

    -- `TestAccess`, where `none` stands for a service that is not set up.
    unfoldable pub test_access :
        Codec → Option (TestOptions W) → ApiTestAccess W I → Go W (Option ErrorMessage)
    test_access c none prm = pure (some uninitialized)
    test_access c (some opts) prm =
        prepare_test (access_repository prm) prm.mocks
        >>= unless_failed λ w.
          let call = new_test_call c prm.pattern prm.payload prm.token in
          with_error (handle_access_for_test opts prm.pattern call prm.on_ok prm.on_err (call, w))

    -- `TestRequestOrPublish`.
    unfoldable pub test_request_or_publish :
        Codec → Option (TestOptions W) → ApiTestRequest W I → Go W (Option ErrorMessage)
    test_request_or_publish c none prm = pure (some uninitialized)
    test_request_or_publish c (some opts) prm =
        prepare_test (request_repository prm) prm.mocks
        >>= unless_failed λ w.
          let call = new_test_call c prm.pattern prm.payload prm.token in
          with_error (handle_request_for_test opts prm.callbacks prm.pattern (call, w))
