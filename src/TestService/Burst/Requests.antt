-- ===== src/TestService/Burst/Requests.antt =====
-- A burst of requests to a service (TestRequestOrPublishBurst and TestRequestOrPublish of
-- v2/pkg/spike/api-test-service-impl.go).
use spike_broker.Prelude.{
  ◌≡◌, refl, ap, ◌∙◌, inl, inr, Option, none, some, List, [], ◌∷◌, map, Option-cases, All, Text,
  Dict,
}
use spike_broker.Rids.Pattern.{Pattern}
use spike_broker.Broker.Message.{ErrorMessage, GoError, of_message}
use spike_broker.Broker.Call.{Codec}
use spike_broker.Api.Request.{panic_error}
use spike_broker.Go.{Go, Exit, value, panic, PanicValue, continue, settle, pure, act, ◌>>=◌, ◌>>◌}
use spike_broker.TestProvider.{
  Callbacks, Mocks, TestCall, OnCall, set_error, test_error, broker_error, at_call, new_test_call,
}
use spike_broker.TestService.{
  Host, TestOptions, ApiTestRequest, set_repository, set_each, set_external_apis, prepare_test,
  unless_failed, wrapped, with_error, handle_request_for_test, handle_call, logged,
  test_request_or_publish, request_repository,
}
use spike_broker.TestService.Burst.{Burst, Result, start_burst}
use spike_broker.TestService.Burst.Returns.{IsTotal, Returning, start_burst-Returning}

module _ {W : Type 0} where
  >>=-IsTotal :
      {A B : Type 0} (m : Go W A) (f : A → Go W B)
      → IsTotal m
      → ((a : A) → IsTotal (f a))
      → IsTotal (m >>= f)
  >>=-IsTotal m f hm hf w =
      let (a, v, e) = hm w in let (b, u, e') = hf a v in (b, u, ap (continue f) e ∙ e')

  unless_failed-IsTotal :
      (next : Go W Result) (e : Result) → IsTotal next → IsTotal (unless_failed next e)
  unless_failed-IsTotal next none h = h
  unless_failed-IsTotal next (some e) h = λ w. (_, _, refl)

module _ {W I : Type 0} (host : Host W I) where
  -- What the service does with a repository and with external interfaces does not panic.
  pub record IsCalm : Type 0 where
    pub repository :
        (f : Option I → Go W (Option GoError)) (repo : Option I)
        → host.with_repository ≡ some f
        → IsTotal (f repo)
    pub external_api :
        (f : Text → I → Go W (Option GoError)) (api : Text) (impl : I)
        → host.with_external_api ≡ some f
        → IsTotal (f api impl)

  module _ (calm : IsCalm) where
    set_repository-IsTotal : (repo : Option I) → IsTotal (set_repository host repo)
    unfolding set_repository
    set_repository-IsTotal repo w = elim (Option-cases host.with_repository) [
      | inl e ↦ rw e (_, _, refl)
      | inr (f, e) ↦ rw e (
          >>=-IsTotal (f repo) (λ e. pure (wrapped e)) (calm.repository f repo e)
            (λ e w. (_, _, refl)) w)
    ]

    set_each-IsTotal :
        (f : Text → I → Go W (Option GoError)) (apis : Dict I)
        → host.with_external_api ≡ some f
        → IsTotal (set_each host f apis)
    unfolding set_each
    set_each-IsTotal f [] e = λ w. (_, _, refl)
    set_each-IsTotal f ((api, impl) ∷ rest) e =
        >>=-IsTotal (f api impl) (λ x. unless_failed (set_each host f rest) (wrapped x))
          (calm.external_api f api impl e)
          (λ x.
            unless_failed-IsTotal (set_each host f rest) (wrapped x) (set_each-IsTotal f rest e))

    set_external_apis-IsTotal : (apis : Option (Dict I)) → IsTotal (set_external_apis host apis)
    unfolding set_external_apis set_each
    set_external_apis-IsTotal none w = (_, _, refl)
    set_external_apis-IsTotal (some apis) w = elim (Option-cases host.with_external_api) [
      | inl e ↦ rw e (_, _, refl)
      | inr (f, e) ↦ rw e (set_each-IsTotal f apis e w)
    ]

    prepare_test-IsTotal :
        (repo : Option I) (mocks : Mocks W I) → IsTotal (prepare_test host repo mocks)
    unfolding prepare_test
    prepare_test-IsTotal repo mocks =
        let set : Go W Result = act (host.set_mocks mocks) >> pure none in
        let rest = set_external_apis host mocks.external_apis >>= unless_failed set in
        let rest-IsTotal : IsTotal rest =
          >>=-IsTotal (set_external_apis host mocks.external_apis) (unless_failed set)
            (set_external_apis-IsTotal mocks.external_apis)
            (λ e. unless_failed-IsTotal set e (λ w. (_, _, refl))) in
        >>=-IsTotal (set_repository host repo) (unless_failed rest) (set_repository-IsTotal repo)
          (λ e. unless_failed-IsTotal rest e rest-IsTotal)

module _ {W : Type 0} (opts : TestOptions W) where
  recovered-IsTotal :
      (h : PanicValue → OnCall W (Unit {0})) (r : Exit (Unit {0}) × (TestCall × W))
      → ((q : PanicValue) → IsTotal (h q))
      → (a : Unit {0}) × (s : TestCall × W) × (settle h r ≡ (value a, s))
  recovered-IsTotal h (value a, s) total = (a, s, refl)
  recovered-IsTotal h (panic q, s) total = total q s

  -- Where `handleErr` does not panic, no handler makes the process end.
  handle_request_for_test-IsTotal :
      (fs : Callbacks W) (p : Pattern)
      → ((e : ErrorMessage) → IsTotal (fs.err_f e))
      → IsTotal (handle_request_for_test opts fs p)
  unfolding handle_request_for_test set_error
  handle_request_for_test-IsTotal fs p total s =
      recovered-IsTotal (λ r. logged opts r >> test_error fs (some (of_message (panic_error p r))))
        (handle_call opts fs p s)
        (λ q (t, w).
          let e = broker_error (some (of_message (panic_error p q))) in
          let (a, v, ended) = total e (logged opts q (t, w)).1.1 in
          (a, (record t { error = some e }, v), ap (at_call (record t { error = some e })) ended))

module _ {W I : Type 0} (host : Host W I) (c : Codec) (opts : TestOptions W)
    (calm : IsCalm host) where
  -- The functions that a test is given do not panic.
  abbrev pub IsQuiet : ApiTestRequest W I → Type 0
  IsQuiet prm = (e : ErrorMessage) → IsTotal (prm.callbacks.err_f e)

  requested-IsTotal :
      (prm : ApiTestRequest W I)
      → IsQuiet prm
      → IsTotal (test_request_or_publish host c (some opts) prm)
  unfolding test_request_or_publish
  requested-IsTotal prm quiet =
      let call = new_test_call c prm.pattern prm.payload prm.token in
      let asks : Go W Result =
        λ w. with_error host (handle_request_for_test opts prm.callbacks prm.pattern (call, w)) in
      let asks-IsTotal : IsTotal asks = λ w.
        let (a, s, ended) =
          handle_request_for_test-IsTotal opts prm.callbacks prm.pattern quiet (call, w) in
        (s.0.error, s.1, ap (with_error host) ended) in
      >>=-IsTotal (prepare_test host (request_repository prm) prm.mocks) (unless_failed asks)
        (prepare_test-IsTotal host calm (request_repository prm) prm.mocks)
        (λ e. unless_failed-IsTotal asks e asks-IsTotal)

  All-requested :
      (prms : List (ApiTestRequest W I))
      → All IsQuiet prms
      → All IsTotal (map (test_request_or_publish host c (some opts)) prms)
  All-requested [] quiet = tt
  All-requested (prm ∷ prms) quiet = (requested-IsTotal prm quiet.0, All-requested prms quiet.1)

  -- A burst of at least one request returns in whatever order its goroutines run and whatever the
  -- handlers of the service do, also where they panic. A test runs in one step; what the service does
  -- with a repository and with external interfaces does not panic, nor do the functions that a test
  -- is given for its errors.
  pub start_burst-requested :
      (prms : List (ApiTestRequest W I)) (w : W) (s : Burst W)
      → All IsQuiet prms
      → start_burst (map (test_request_or_publish host c (some opts)) prms) w ≡ some s
      → Returning s
  start_burst-requested prms w s quiet begun =
      start_burst-Returning (map (test_request_or_publish host c (some opts)) prms) w s
        (All-requested prms quiet) begun
