-- ===== src/Tests/V1Start.antt =====
-- Two toy services of version 1 that start (main.go).
use spike_broker.Prelude.{
  ◌≡◌, refl, true, false, none, some, List, [], ◌∷◌, Text, codes, text_eq, lookup, insert,
}
use spike_broker.Go.{Go, act, pure, raise, value, of_value}
use spike_broker.V1.Start.{
  Service, RouteService, start_services, collect, collect_one, services_type, is_chosen, remove,
  run_each, start_after_each, stop_services, stop_each, base_stop,
}
use spike_broker.V1.Init.{Setup, init, migrate, nats_provider}
use spike_broker.V1.Start.Phases.{start_services-start_in_phases, start_in_phases}

-- What has happened, the last first.
abbrev Calls : Type 0
Calls = List (Text × Text)

abbrev note : Text → Text → Go Calls (Unit {0})
note what whose = act (λ (w : Calls). (what, whose) ∷ w)

abbrev service : Text → Service Calls
service name = record {
  name = name;
  patterns = [];
  dependencies = codes "route" ∷ [];
  start = note (codes "start") name;
  start_after_dependency = λ dep. note (codes "after") name;
  all_services_started = note (codes "all") name;
  stop = note (codes "stop") name;
}

abbrev route : RouteService Calls
route = record {
  base = service (codes "route");
  add_auth_rid = λ name patterns. note (codes "auth") name;
  set_handler_func = λ ss. pure tt;
}

abbrev made : List (Go Calls (Service Calls))
made = pure (service (codes "a")) ∷ pure (service (codes "b")) ∷ pure (service (codes "c")) ∷ []

abbrev names : List Text
names = codes "a" ∷ codes "route" ∷ codes "c" ∷ []

start_services-start_in_phases_example :
    start_services route false made names [] ≡ start_in_phases route false made names []
start_services-start_in_phases_example = start_services-start_in_phases route false made names []

-- All have started before the first dependency is processed, and the service `b` is not run here.
in_order :
    (start_services route false made names []).1
    ≡ (codes "all", codes "route")
      ∷ (codes "all", codes "c")
      ∷ (codes "all", codes "a")
      ∷ (codes "after", codes "c")
      ∷ (codes "after", codes "a")
      ∷ (codes "start", codes "c")
      ∷ (codes "auth", codes "c")
      ∷ (codes "start", codes "a")
      ∷ (codes "auth", codes "a")
      ∷ (codes "start", codes "route")
      ∷ (codes "auth", codes "route")
      ∷ []
unfolding start_services collect collect_one services_type is_chosen remove run_each
    start_after_each lookup insert text_eq
in_order = refl

-- Where `route` has not been started here, its end panics, and no other service is stopped.
unstopped :
    (stop_services
      (record route { base = record route.base { stop = base_stop none } })
      (service (codes "a") ∷ [])
      []).1
    ≡ []
unfolding stop_services stop_each base_stop
unstopped = refl

abbrev setup : Setup Calls
setup = record {
  has_rid = true;
  provider = nats_provider;
  connect = note (codes "connect") [];
  subscriber = some (note (codes "subscribe") []);
  migration = some (λ (w : Calls). (value (some (codes "no table")), (codes "migrate", []) ∷ w));
  lock = note (codes "lock") [];
  unlock = note (codes "unlock") [];
}

-- A migration that fails gives the lock back; one that panics keeps it.
migrated :
    ((init setup []).1
      ≡ (codes "unlock", [])
        ∷ (codes "migrate", [])
        ∷ (codes "lock", [])
        ∷ (codes "subscribe", [])
        ∷ (codes "connect", [])
        ∷ [])
    × ((init (record setup { migration = some (raise (of_value (codes "boom"))) }) []).1
        ≡ (codes "lock", []) ∷ (codes "subscribe", []) ∷ (codes "connect", []) ∷ [])
unfolding init migrate text_eq
migrated = (refl, refl)
