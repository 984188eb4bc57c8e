-- ===== src/TestService/Setup.antt =====
-- Setup, StartService and Stop of v2/pkg/spike/api-test-service-impl.go: a service that is started for
-- its unit tests.
use spike_broker.Prelude.{Option, none, some, List, [], ◌∷◌, ◌++◌, Text, codes}
use spike_broker.Rids.Pattern.{Pattern}
use spike_broker.Broker.Message.{ErrorMessage, GoError, of_message, plain}
use spike_broker.Go.{Go, raise, pure, of_value, ◌>>=◌, ◌>>◌}
use spike_broker.TestProvider.{Mocks}
use spike_broker.TestService.{Host, set_external_apis}

-- The provider of the tests, which is given no handler, and the service, whose groups of monitors stand
-- in the order of the iteration.
pub record TestBroker (W I : Type 0) : Type 0 where
  pub subscribe : Pattern → Go W (Option ErrorMessage)
  pub monitor : Text → Pattern → Go W (Option ErrorMessage)
  pub set_mocks : Mocks W I → Go W (Unit {0})
  pub close : Go W (Unit {0})

-- A provider that is nil.
abbrev pub nil_call : {W A : Type 0} → Go W A
nil_call = raise (of_value (codes "nil pointer dereference"))

abbrev pub nil_broker : {W I : Type 0} → TestBroker W I
nil_broker = record {
  subscribe = λ p. nil_call;
  monitor = λ group p. nil_call;
  set_mocks = λ mocks. nil_call;
  close = nil_call;
}

pub record TestedService (W I : Type 0) : Type 0 where
  pub name : Text
  pub handlers : List Pattern
  pub monitors : Option (List (Text × List Pattern))
  pub host : Host W I
  pub start : Text → Go W (Option GoError)

-- `testServiceImpl`; `opts` is the service of the options.
pub record TestServer (W I : Type 0) : Type 0 where
  pub opts : Option (TestedService W I)
  pub id : Text
  pub broker : TestBroker W I
  pub start_mocks : Mocks W I

-- `NewAPITestService`.
abbrev pub new_test_server : {W I : Type 0} → Mocks W I → TestServer W I
new_test_server mocks = record { opts = none; id = []; broker = nil_broker; start_mocks = mocks }

-- An error ends the start.
abbrev pub go_on : {W : Type 0} → Go W (Option GoError) → Option GoError → Go W (Option GoError)
go_on rest none = rest
go_on rest (some e) = pure (some e)

abbrev pub as_error : Option ErrorMessage → Option GoError
as_error none = none
as_error (some e) = some (of_message e)

module _ {W I : Type 0} where
  -- `Setup`, with what `uuid.NewV4` returns. The options are kept also if it fails; a broker that is
  -- not the one of the tests panics.
  unfoldable pub test_setup :
      Option Text
      → TestedService W I
      → Option (TestBroker W I)
      → TestServer W I
      → Go W (TestServer W I × Option GoError)
  test_setup none service b s = pure (record s { opts = some service }, some (plain (codes "uuid")))
  test_setup (some id) service none s =
      raise (of_value (codes "must use testProver.Provider as broker on unit tests"))
  test_setup (some id) service (some b) s =
      pure (record s { opts = some service; id = id; broker = b }, none)

  module _ (b : TestBroker W I) where
    -- The loop over `Handlers()`.
    unfoldable pub subscribe_tests : List Pattern → Go W (Option GoError)
    subscribe_tests [] = pure none
    subscribe_tests (h ∷ hs) = b.subscribe h >>= λ e. go_on (subscribe_tests hs) (as_error e)

    -- The inner loop over the monitors of a group, and the outer one.
    unfoldable pub monitor_tests : Text → List Pattern → Go W (Option GoError)
    monitor_tests group [] = pure none
    monitor_tests group (m ∷ ms) =
        b.monitor group m >>= λ e. go_on (monitor_tests group ms) (as_error e)

    unfoldable pub monitor_test_groups : Text → List (Text × List Pattern) → Go W (Option GoError)
    monitor_test_groups name [] = pure none
    monitor_test_groups name ((group, ms) ∷ groups) =
        monitor_tests (name ++ (b'-' ∷ group)) ms >>= go_on (monitor_test_groups name groups)

    abbrev pub monitor_service : TestedService W I → Go W (Option GoError)
    monitor_service service = elim service.monitors [
      | none ↦ pure none
      | some groups ↦ monitor_test_groups service.name groups
    ]

    abbrev pub mocked : TestedService W I → Mocks W I → Go W (Option GoError)
    mocked service mocks = set_external_apis service.host mocks.external_apis >>= λ e.
        go_on (b.set_mocks mocks >> pure none) (as_error e)

  abbrev pub start_tested : TestedService W I → Option Text → Go W (Option GoError)
  start_tested service none = pure (some (plain (codes "uuid")))
  start_tested service (some key) = service.start key

  -- `StartService`, with what `uuid.NewV4` returns.
  unfoldable pub test_start : Option Text → TestServer W I → Go W (Option GoError)
  test_start id s = elim s.opts [
    | none ↦ pure (some (plain (codes "API not initialized")))
    | some service ↦
        subscribe_tests s.broker service.handlers
        >>= go_on (
            monitor_service s.broker service
            >>= go_on (mocked s.broker service s.start_mocks >>= go_on (start_tested service id)))
  ]

  -- `Stop`.
  unfoldable pub test_stop : TestServer W I → Go W (Option GoError)
  test_stop s = elim s.opts [
    | none ↦ pure (some (plain (codes "API not initialized")))
    | some service ↦ s.broker.close >> pure none
  ]
