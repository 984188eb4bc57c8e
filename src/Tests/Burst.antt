-- ===== src/Tests/Burst.antt =====
-- A burst of two toy tests, of which the second fails.
use spike_broker.Prelude.{◌≡◌, refl, true, none, some, List, [], ◌∷◌, arith, Text, codes}
use spike_broker.Broker.Message.{error_status_forbidden}
use spike_broker.Go.{Go, value, raise, pure, of_value}
use spike_broker.TestService.Burst.{
  Burst, Result, waiting, passing, running, finished, pass_next, pass_last, pass_behind, run_here,
  run_behind, pass, run, collect, Reachable, started, step, receive, start_burst,
}
use spike_broker.TestService.Burst.Outcome.{Reachable-Explains, Ends, One}
use spike_broker.TestService.Burst.Returns.{Returning}
use spike_broker.TestService.Burst.Requests.{IsCalm, start_burst-requested}
use spike_broker.TestService.{TestOptions, Host, ApiTestRequest, test_request_or_publish}
use spike_broker.TestProvider.{no_callbacks}
use spike_broker.Rids.Pattern.{nil}
use spike_broker.Tests.World.{Mail, codec, sold}

abbrev passes : Go Mail Result
passes w = (value none, (codes "one", []) ∷ w)

abbrev fails : Go Mail Result
fails w = (value (some error_status_forbidden), (codes "two", []) ∷ w)

abbrev two : List (Go Mail Result)
two = passes ∷ fails ∷ []

abbrev begun : Burst Mail
begun = record {
  goroutines = passing passes ∷ waiting fails ∷ [];
  chans = [];
  left = 2;
  returned = none;
  world = [];
}

abbrev both : Burst Mail
both = record begun { goroutines = running passes ∷ running fails ∷ [] }

-- The second ends first, and its error is returned while the first still runs.
abbrev failed : Burst Mail
failed = record {
  goroutines = running passes ∷ finished (some error_status_forbidden) ∷ [];
  chans = some error_status_forbidden ∷ [];
  left = 2;
  returned = none;
  world = (codes "two", []) ∷ [];
}

abbrev over : Burst Mail
over = record failed { chans = []; left = 1; returned = some (some error_status_forbidden) }

begun-Reachable : Reachable two [] begun
unfolding start_burst
begun-Reachable = started refl

both-Reachable : Reachable two [] both
both-Reachable =
    step (step begun-Reachable (pass (running passes ∷ passing fails ∷ []) pass_next refl))
      (pass (running passes ∷ running fails ∷ []) (pass_behind pass_last) refl)

over-Reachable : Reachable two [] over
unfolding receive
over-Reachable =
    step
      (step both-Reachable (
        run (running passes ∷ finished (some error_status_forbidden) ∷ [])
          (some error_status_forbidden) ((codes "two", []) ∷ []) (run_behind (run_here refl)) refl))
      (collect refl refl)

Reachable-Explains_example : One (Ends (some error_status_forbidden)) two
Reachable-Explains_example = Reachable-Explains two [] over over-Reachable

-- A service whose handler panics, and which keeps no repository.
abbrev failing : TestOptions Mail
failing = record {
  handlers =
      record { resource = sold; handler = raise (of_value (codes "boom")); validators = [] } ∷ [];
  validate_token = λ t. pure (t, true);
  has_permission = λ m. pure true;
  log = λ t w. (codes "log", t) ∷ w;
}

abbrev host : Host Mail Text
host = record { with_repository = none; with_external_api = none; set_mocks = λ m w. w }

host-IsCalm : IsCalm host
host-IsCalm = record {
  repository = λ f repo h. absurd (ground (arith, h));
  external_api = λ f api impl h. absurd (ground (arith, h));
}

abbrev sale : ApiTestRequest Mail Text
sale = record {
  pattern = sold;
  repository = none;
  payload = nil;
  token = codes "me";
  mocks = record { requests = []; publishes = []; external_apis = none; repository = none };
  callbacks = no_callbacks;
}

abbrev requested : Burst Mail
requested = record {
  goroutines =
      passing (test_request_or_publish host codec (some failing) sale)
      ∷ waiting (test_request_or_publish host codec (some failing) sale)
      ∷ [];
  chans = [];
  left = 2;
  returned = none;
  world = [];
}

start_burst-requested_example : Returning requested
unfolding start_burst
start_burst-requested_example =
    start_burst-requested host codec failing host-IsCalm (sale ∷ sale ∷ []) [] requested
      ((λ e w. (_, _, refl)), ((λ e w. (_, _, refl)), tt)) refl

-- Without a test, `order[0]` panics.
start_burst_of_none : (w : Mail) → start_burst [] w ≡ none
unfolding start_burst
start_burst_of_none w = refl
