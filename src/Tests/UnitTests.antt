-- ===== src/Tests/UnitTests.antt =====
-- Unit tests of a toy service (v2/pkg/spike/api-test-service-impl.go) over the test provider.
use spike_broker.Prelude.{◌≡◌, refl, true, none, some, [], ◌∷◌, codes, text_eq, Text}
use spike_broker.Prelude.Decimal.{ℤ, pos}
use spike_broker.Rids.Pattern.{endpoint_name}
use spike_broker.Broker.Message.{ErrorMessage, error_access_denied}
use spike_broker.Go.{value, act, pure}
use spike_broker.TestProvider.{
  Mocks, TestCall, fresh, test_ok, no_callbacks, test_access_granted, test_access_denied, set_error,
}
use spike_broker.TestService.{
  TestOptions, examine, find_handler, handle_access_for_test, run_from, failed, set_external_apis,
  set_each,
}
use spike_broker.TestService.Setup.{
  TestBroker, TestedService, TestServer, new_test_server, test_setup, test_start, test_stop,
  subscribe_tests, monitor_tests, monitor_test_groups,
}
use spike_broker.TestService.Access.{Ends}
use spike_broker.TestService.Access.Decided.{handle_access_for_test-Ends}
use spike_broker.Tests.World.{Mail, codec, sold}

abbrev sent : TestCall
sent = fresh sold (codes "me") (codes "7")

-- A service with one handler, whose second validator denies access.
abbrev service : TestOptions Mail
service = record {
  handlers =
      record {
        resource = sold;
        handler = test_ok no_callbacks codec [];
        validators = test_access_granted no_callbacks ∷ test_access_denied no_callbacks none ∷ [];
      }
      ∷ [];
  validate_token = λ t. pure (codes "user", text_eq t (codes "me"));
  has_permission = λ m. pure true;
  log = λ t w. (codes "log", t) ∷ w;
}

abbrev on_ok : Mail → Mail
on_ok w = (codes "ok", []) ∷ w

abbrev on_err : ℤ → ErrorMessage → Mail → Mail
on_err i e w = (codes "err", e.message_str) ∷ w

handle_access_for_test-Ends_example :
    Ends service sold on_ok on_err sent sent []
      (handle_access_for_test service sold sent (act on_ok) (λ i e. act (on_err i e)) (sent, []))
handle_access_for_test-Ends_example =
    handle_access_for_test-Ends service sold on_ok on_err sent sent []

-- The second validator, of index 1, has spoken.
denied : examine service sold sent (sent, []) ≡ (
  value (failed (pos 1) error_access_denied),
  (record sent { error = some error_access_denied }, []),
)
unfolding examine find_handler run_from text_eq test_access_denied set_error endpoint_name
denied = refl

abbrev recording : TestBroker Mail Text
recording = record {
  subscribe = λ p w. (value none, (codes "subscribe", endpoint_name p) ∷ w);
  monitor = λ group p w. (value none, (group, endpoint_name p) ∷ w);
  set_mocks = λ mocks w. (value tt, (codes "mocks", []) ∷ w);
  close = act (λ w. (codes "close", []) ∷ w);
}

abbrev tested : TestedService Mail Text
tested = record {
  name = codes "shop";
  handlers = sold ∷ [];
  monitors = some ((codes "g", sold ∷ []) ∷ []);
  host = record {
    with_repository = none;
    with_external_api = some (λ api impl w. (value none, (api, impl) ∷ w));
    set_mocks = λ mocks w. w;
  };
  start = λ key w. (value none, (codes "start", key) ∷ w);
}

abbrev mocks : Mocks Mail Text
mocks = record {
  requests = [];
  publishes = [];
  external_apis = some ((codes "mail", codes "stub") ∷ []);
  repository = none;
}

abbrev server : TestServer Mail Text
server = record { opts = some tested; id = codes "1"; broker = recording; start_mocks = mocks }

test_setup_run :
    test_setup (some (codes "1")) tested (some recording) (new_test_server mocks) []
    ≡ (value (server, none), [])
unfolding test_setup
test_setup_run = refl

test_start_run : test_start (some (codes "2")) server [] ≡ (
  value none,
  (codes "start", codes "2")
      ∷ (codes "mocks", [])
      ∷ (codes "mail", codes "stub")
      ∷ (codes "shop-g", endpoint_name sold)
      ∷ (codes "subscribe", endpoint_name sold)
      ∷ [],
)
unfolding test_start subscribe_tests monitor_tests monitor_test_groups set_external_apis set_each
test_start_run = refl

test_stop_run : test_stop server [] ≡ (value none, (codes "close", []) ∷ [])
unfolding test_stop
test_stop_run = refl
