-- ===== src/V1/Start.antt =====
-- NewProxyServer of main.go and Init and Stop of pkg/service/base-service.go: the services of version
-- 1 are started and stopped.
pub mod Phases
use spike_broker.Prelude.{
  ℕ, zero, suc, ◌+◌, ◌-◌, ◌*◌, ◌/◌, ◌%◌, ◌^◌, ◌≤◌, ◌<◌, ◌≡◌, refl, sym, ap, ◌∙◌, ◌≢◌, ◌↔◌, ◌⊎◌, inl,
  inr, Bool, true, false, not, ◌&&◌, ◌||◌, Option, none, some, List, [], ◌∷◌, ◌++◌, map, arith, ltb,
  leb, ◌==◌, if◌then◌else◌, ==_iff, Bool-cases, Option-cases, length, length-append, is_empty, drop,
  find, filter, drop_last, All, All-append, All-left, Text, codes, text_eq, text_eq_refl,
  text_eq_iff, text_eq_ne, Dict, lookup, insert, lookup-insert, contains,
}
use spike_broker.Go.{Go, pure, raise, of_value, ◌>>=◌, ◌>>◌}
use spike_broker.V1.Rids.{Pattern}

-- `Service`; its constructors, `SetOptions` and `SetContext` only store.
pub record Service (W : Type 0) : Type 0 where
  pub name : Text
  pub patterns : List Pattern
  pub dependencies : List Text
  pub start : Go W (Unit {0})
  pub start_after_dependency : Text → Go W (Unit {0})
  pub all_services_started : Go W (Unit {0})
  pub stop : Go W (Unit {0})

-- The service `route`, which learns of all others.
pub record RouteService (W : Type 0) : Type 0 where
  pub base : Service W
  pub add_auth_rid : Text → List Pattern → Go W (Unit {0})
  pub set_handler_func : List (Service W) → Go W (Unit {0})

-- `servicesType`: each name under itself.
unfoldable pub services_type : List Text → Dict Text → Dict Text
services_type [] types = types
services_type (srv ∷ srvs) types = services_type srvs (insert srv srv types)

abbrev pub text_at : Option Text → Text
text_at none = []
text_at (some t) = t

-- Whether this process runs a service. A missing key gives the empty text.
unfoldable pub is_chosen : Dict Text → Bool → Text → Bool
is_chosen types developer name = text_eq (text_at (lookup name types)) name || developer

-- `delete(servicesType, name)`.
unfoldable pub remove : Text → Dict Text → Dict Text
remove name [] = []
remove name ((key, t) ∷ types) =
    let rest = remove name types in if text_eq key name then rest else (key, t) ∷ rest

-- `Stop` of `Base`: a service that has not been started has no provider.
unfoldable pub base_stop : {W : Type 0} → Option (Go W (Unit {0})) → Go W (Unit {0})
base_stop none = raise (of_value (codes "invalid memory address or nil pointer dereference"))
base_stop (some close) = close

-- `startedList`, `startDeps` and `startAllDeps`; `externalRoutes` follows the first.
pub record Collected (W : Type 0) : Type 0 where
  pub started : List (Service W)
  pub start_deps : List (Go W (Unit {0}))
  pub start_all_deps : List (Go W (Unit {0}))

module _ {W : Type 0} where
  unfoldable pub run_each : List (Go W (Unit {0})) → Go W (Unit {0})
  run_each [] = pure tt
  run_each (f ∷ fs) = let rest = run_each fs in f >> rest

  unfoldable pub start_after_each : Service W → List Text → Go W (Unit {0})
  start_after_each s [] = pure tt
  start_after_each s (dep ∷ deps) =
      let rest = start_after_each s deps in s.start_after_dependency dep >> rest

  -- `processDependencies`.
  abbrev pub process_dependencies : Service W → Go W (Unit {0})
  process_dependencies s = start_after_each s s.dependencies

  abbrev pub finish_start : Service W → Go W (Unit {0})
  finish_start s = s.all_services_started

  unfoldable pub collect_one : Service W → Collected W → Collected W
  collect_one s a = record {
    started = a.started ++ (s ∷ []);
    start_deps = a.start_deps ++ (process_dependencies s ∷ []);
    start_all_deps = a.start_all_deps ++ (finish_start s ∷ []);
  }

  module _ (route : RouteService W) (developer : Bool) where
    abbrev pub announce : Service W → Go W (Unit {0})
    announce s = route.add_auth_rid s.name s.patterns

    -- The loop over the services, each of which is made by a function of the application.
    unfoldable pub collect : Dict Text → List (Go W (Service W)) → Collected W → Go W (Collected W)
    collect types [] a = pure a
    collect types (srv ∷ srvs) a = srv >>= λ s.
        if is_chosen types developer s.name
        then announce s >> s.start >> collect types srvs (collect_one s a)
        else collect types srvs a

    abbrev pub start_others : List (Go W (Service W)) → Dict Text → Go W (List (Service W))
    start_others srvs types =
        collect types srvs (record { started = []; start_deps = []; start_all_deps = [] }) >>= λ a.
        run_each a.start_deps
        >> run_each a.start_all_deps
        >> route.set_handler_func a.started
        >> route.base.all_services_started
        >> pure a.started

    -- The goroutine of `NewProxyServer`, up to `connected`: it gives the list of what has been
    -- started.
    unfoldable pub start_services : List (Go W (Service W)) → List Text → Go W (List (Service W))
    start_services srvs names =
        let types = services_type names [] in
        if is_chosen types developer route.base.name
        then announce route.base
          >> route.base.start
          >> start_others srvs (remove route.base.name types)
        else start_others srvs types

  unfoldable pub stop_each : List (Service W) → Go W (Unit {0})
  stop_each [] = pure tt
  stop_each (s ∷ ss) = let rest = stop_each ss in s.stop >> rest

  -- What follows the end of the context.
  unfoldable pub stop_services : RouteService W → List (Service W) → Go W (Unit {0})
  stop_services route started = route.base.stop >> stop_each started
