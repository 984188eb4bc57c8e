-- ===== src/TestService/Repository.antt =====
-- The repository that a test gives to the service (v2/pkg/spike/api-test-service-impl.go).
use spike_broker.Prelude.{◌≡◌, ap, ◌∙◌, Option, none, some, arith}
use spike_broker.Broker.Message.{ErrorMessage, GoError, internal_error}
use spike_broker.Broker.Call.{Codec}
use spike_broker.Go.{Go, value, continue, ◌>>=◌, act, ◌>>◌, pure}
use spike_broker.TestProvider.{Mocks}
use spike_broker.TestService.{
  Host, TestOptions, ApiTestAccess, ApiTestRequest, test_access, prepare_test, set_repository,
  test_request_or_publish, access_repository, unless_failed, request_repository, set_external_apis,
}

module _ {W I : Type 0} where
  access_repository-mocked :
      (prm : ApiTestAccess W I) {r : I}
      → prm.repository ≡ none
      → prm.mocks.repository ≡ some r
      → access_repository prm ≡ none
  unfolding access_repository
  access_repository-mocked prm h k = ground (arith, h, k)

  request_repository-mocked :
      (req : ApiTestRequest W I) {r : I}
      → req.repository ≡ none
      → req.mocks.repository ≡ some r
      → request_repository req ≡ some r
  unfolding request_repository
  request_repository-mocked req h k = ground (arith, h, k)

module _ {W I : Type 0} (host : Host W I) (f : Option I → Go W (Option GoError)) where
  set_repository-refused :
      (repo : Option I) (e : GoError) (w w' : W)
      → host.with_repository ≡ some f
      → f repo w ≡ (value (some e), w')
      → set_repository host repo w ≡ (value (some (internal_error (some e))), w')
  unfolding set_repository
  set_repository-refused repo e w w' h r = ground (arith, h, r)

  prepare_test-refused :
      (repo : Option I) (mocks : Mocks W I) (e : GoError) (w w' : W)
      → host.with_repository ≡ some f
      → f repo w ≡ (value (some e), w')
      → prepare_test host repo mocks w ≡ (value (some (internal_error (some e))), w')
  unfolding prepare_test
  prepare_test-refused repo mocks e w w' h r =
      ap
        (continue (
          unless_failed (
            set_external_apis host mocks.external_apis
            >>= unless_failed (act (host.set_mocks mocks) >> pure none))))
        (set_repository-refused repo e w w' h r)

  stopped :
      (next : Go W (Option ErrorMessage)) (used repo : Option I) (mocks : Mocks W I) (e : GoError)
      (w w' : W)
      → used ≡ repo
      → host.with_repository ≡ some f
      → f repo w ≡ (value (some e), w')
      → continue (unless_failed next) (prepare_test host used mocks w)
        ≡ (value (some (internal_error (some e))), w')
  stopped next used repo mocks e w w' q h r =
      ap (λ (i : Option I). continue (unless_failed next) (prepare_test host i mocks w)) q
      ∙ ap (continue (unless_failed next)) (prepare_test-refused repo mocks e w w' h r)

  -- Of a repository among the mocks alone TestAccess knows nothing: it sets nil, and returns the
  -- error if the service refuses that. TestRequestOrPublish, given the same, sets the repository:
  -- it returns an error that the service has for that one. The service takes a repository, and it
  -- is set up.
  pub test_access-test_request_or_publish :
      (c : Codec) (opts : TestOptions W) (prm : ApiTestAccess W I) (req : ApiTestRequest W I)
      (r : I) (e d : GoError) (w v u : W)
      → host.with_repository ≡ some f
      → prm.repository ≡ none
      → prm.mocks.repository ≡ some r
      → req.repository ≡ none
      → req.mocks.repository ≡ some r
      → f none w ≡ (value (some e), v)
      → f (some r) w ≡ (value (some d), u)
      → (test_access host c (some opts) prm w ≡ (value (some (internal_error (some e))), v))
        × (test_request_or_publish host c (some opts) req w
            ≡ (value (some (internal_error (some d))), u))
  unfolding test_access test_request_or_publish
  test_access-test_request_or_publish c opts prm req r e d w v u h pn pm rn rm refused other = (
    stopped _ (access_repository prm) none prm.mocks e w v (access_repository-mocked prm pn pm) h
        refused,
    stopped _ (request_repository req) (some r) req.mocks d w u
        (request_repository-mocked req rn rm) h other,
  )
