-- ===== src/Api/Service.antt =====
-- v2/pkg/spike/api-service-impl.go: how a service is set up, started and stopped.
pub mod Lifecycle
pub mod Plan
pub mod Start
pub mod Stop
use spike_broker.Prelude.{
  ℕ, zero, suc, ◌+◌, ◌-◌, ◌*◌, ◌/◌, ◌%◌, ◌^◌, ◌≤◌, ◌<◌, ◌≡◌, refl, sym, ap, ◌∙◌, ◌≢◌, ◌↔◌, ◌⊎◌, inl,
  inr, Bool, true, false, not, ◌&&◌, ◌||◌, Option, none, some, List, [], ◌∷◌, ◌++◌, map, arith, ltb,
  leb, ◌==◌, if◌then◌else◌, ==_iff, Bool-cases, Option-cases, length, length-append, is_empty, drop,
  find, filter, drop_last, All, All-append, All-left, Text, codes, text_eq, text_eq_refl,
  text_eq_iff, text_eq_ne, Dict, lookup, insert, lookup-insert, contains,
}
use spike_broker.Rids.Pattern.{Pattern}
use spike_broker.Rids.Base.{Base, live, validate_monitor, validate_publish}
use spike_broker.Broker.Message.{ErrorMessage, GoError, of_message, plain}
use spike_broker.Broker.Call.{ok, new_call_from_json, new_access}
use spike_broker.Go.{Go, Exit, value, panic, continue, ◌>>=◌, ◌>>◌, pure, raise, of_value, act}
use spike_broker.Api.Request.{Env, Subscription, handle_request}
use spike_broker.Api.Events.{Event, Check, of_monitor, of_publish, event_handler}

-- A `ServiceHandler` with its subscription: it takes the payload and the reply endpoint.
abbrev pub ServiceHandler : Type 0 → Type 0
ServiceHandler W = Text → Text → Go W (Unit {0})

-- The functions that end the monitors of a service.
abbrev pub Subs : Type 0 → Type 0
Subs W = List (Go W (Unit {0}))

-- What a service uses of the interface `Provider`. A subscription comes with the function that
-- ends it.
pub record Provider (W : Type 0) : Type 0 where
  pub subscribe : Pattern → ServiceHandler W → Go W (Option ErrorMessage × Go W (Unit {0}))
  pub monitor : Text → Pattern → ServiceHandler W → Go W (Option ErrorMessage × Go W (Unit {0}))

-- The interfaces `Service`, `WithMonitors` and `WithEvents`; what is nil is `none`. The groups of
-- the map `Monitors()` stand in the order of the iteration. `stop` waits for the end.
pub record Service (W : Type 0) : Type 0 where
  pub rid : Base
  pub handlers : Option (List (Subscription W))
  pub monitors : Option (List (Text × List (Subscription W)))
  pub events : Option (List (Event W))
  pub broker : Option (Provider W)
  pub logger : Option (Text → W → W)
  pub start : Text → Go W (Option GoError)
  pub stop : Go W (Unit {0})

-- `Options`, with what the request handler takes from it.
pub record Options (W : Type 0) : Type 0 where
  pub service : Option (Service W)
  pub env : Env W

-- `serviceImpl`. Its context is cancelled or not.
pub record ServiceImpl (W : Type 0) : Type 0 where
  pub opts : Option (Options W)
  pub cancelled : Bool
  pub id : Text
  pub broker : Option (Provider W)
  pub logger : Option (Text → W → W)
  pub monitor_subs : Subs W

abbrev pub new_service_impl : {W : Type 0} → ServiceImpl W
new_service_impl = record {
  opts = none;
  cancelled = false;
  id = [];
  broker = none;
  logger = none;
  monitor_subs = [];
}

abbrev pub fails : {W A : Type 0} → A → Text → Go W (A × Option GoError)
fails a t = pure (a, some (plain t))

-- The error of a subscription.
abbrev pub error_of : {A : Type 0} → Option ErrorMessage × A → Option GoError
error_of (some e, a) = some (of_message e)
error_of (none, a) = none

module _ {W : Type 0} where
  -- `Setup`, with what `uuid.NewV4` returns. The options are kept also if it fails; a service that
  -- is nil panics.
  unfoldable pub setup :
      Option Text → Options W → ServiceImpl W → Go W (ServiceImpl W × Option GoError)
  setup none options s =
      pure (record s { opts = some options; cancelled = false }, some (plain (codes "uuid")))
  setup (some id) options s = elim options.service [
    | none ↦ raise (of_value (codes "nil pointer dereference"))
    | some service ↦ pure (
      record s {
        opts = some options;
        cancelled = false;
        id = id;
        broker = service.broker;
        logger = service.logger;
      },
      none,
    )
  ]

  -- The `handler` of `StartService`: a payload that is no call is ignored.
  unfoldable pub serve_request : Env W → Subscription W → ServiceHandler W
  serve_request env sub payload reply_endpoint =
      elim (new_call_from_json env.codec payload sub.resource reply_endpoint) [
        | none ↦ pure tt
        | some m ↦ handle_request env sub m (new_access m)
      ]

  -- The subscription of the `Live` method.
  unfoldable pub live_subscription : Env W → Base → Subscription W
  live_subscription env rid = record {
    resource = live rid;
    handler = λ m. ok env.codec env.send m none;
    validators = [];
  }

  -- What follows a step, unless that failed.
  abbrev pub unless_failed : Go W (Option GoError) → Option GoError → Go W (Option GoError)
  unless_failed rest (some e) = pure (some e)
  unless_failed rest none = rest

  -- The same for steps that also change `monitorSubs`.
  abbrev pub on_success :
      (Subs W → Go W (Subs W × Option GoError))
      → Subs W × Option GoError
      → Go W (Subs W × Option GoError)
  on_success rest (subs, some e) = pure (subs, some e)
  on_success rest (subs, none) = rest subs

  abbrev pub with_subs : Subs W → Go W (Option GoError) → Go W (Subs W × Option GoError)
  with_subs subs m = m >>= λ e. pure (subs, e)

  -- The function that ends a monitor is kept unless there was an error.
  abbrev pub keep : Subs W → Option ErrorMessage × Go W (Unit {0}) → Go W (Subs W × Option GoError)
  keep subs (some e, unsubscribe) = pure (subs, some (of_message e))
  keep subs (none, unsubscribe) = pure (subs ++ (unsubscribe ∷ []), none)

  abbrev pub subscribe_to : Provider W → Pattern → ServiceHandler W → Go W (Option GoError)
  subscribe_to p r h = p.subscribe r h >>= λ result. pure (error_of result)

  module _ (p : Provider W) (env : Env W) where
    -- The loop over `Handlers()`.
    unfoldable pub subscribe_all : List (Subscription W) → Go W (Option GoError)
    subscribe_all [] = pure none
    subscribe_all (sub ∷ subs) =
        subscribe_to p sub.resource (serve_request env sub) >>= unless_failed (subscribe_all subs)

    -- The inner loop over the subscriptions of a group.
    unfoldable pub monitor_group :
        Text → List (Subscription W) → Subs W → Go W (Subs W × Option GoError)
    monitor_group group [] kept = pure (kept, none)
    monitor_group group (sub ∷ subs) kept =
        p.monitor group sub.resource (serve_request env sub)
        >>= keep kept
        >>= on_success (monitor_group group subs)

    -- The outer loop over `Monitors()`.
    unfoldable pub monitor_all :
        Text → List (Text × List (Subscription W)) → Subs W → Go W (Subs W × Option GoError)
    monitor_all name [] kept = pure (kept, none)
    monitor_all name ((group, subs) ∷ groups) kept =
        monitor_group (name ++ (b'-' ∷ group)) subs kept >>= on_success (monitor_all name groups)

    -- The monitors of a service: `monitorSubs` is emptied first if it has any.
    unfoldable pub subscribe_monitors :
        Text
        → Option (List (Text × List (Subscription W)))
        → Subs W
        → Go W (Subs W × Option GoError)
    subscribe_monitors name none kept = pure (kept, none)
    subscribe_monitors name (some groups) kept = monitor_all name groups []

    -- The two validating subscriptions of a service with events.
    unfoldable pub subscribe_checks : Base → Option (List (Event W)) → Go W (Option GoError)
    subscribe_checks rid none = pure none
    subscribe_checks rid (some events) =
        subscribe_to p (validate_monitor rid)
          (event_handler env of_monitor (some events) (validate_monitor rid))
        >>= unless_failed (
            subscribe_to p (validate_publish rid)
              (event_handler env of_publish (some events) (validate_publish rid)))

    unfoldable pub subscribe_live : Base → Go W (Option GoError)
    subscribe_live rid = subscribe_to p (live rid) (serve_request env (live_subscription env rid))

    -- The part of `StartService` after its guards. It returns `monitorSubs` and the error.
    unfoldable pub start_all :
        Service W → List (Subscription W) → Text → Subs W → Go W (Subs W × Option GoError)
    start_all service handlers id kept =
        with_subs kept (subscribe_all handlers)
        >>= on_success (λ kept. with_subs kept (subscribe_live service.rid))
        >>= on_success (subscribe_monitors service.rid.name service.monitors)
        >>= on_success (λ kept. with_subs kept (subscribe_checks service.rid service.events))
        >>= on_success (λ kept. with_subs kept (service.start id))

  abbrev pub keep_subs :
      ServiceImpl W → Subs W × Option GoError → Go W (ServiceImpl W × Option GoError)
  keep_subs s (kept, e) = pure (record s { monitor_subs = kept }, e)

  -- The guards on the handlers, the broker and the logger.
  unfoldable pub start_given :
      Env W
      → ServiceImpl W
      → Service W
      → Option (List (Subscription W))
      → Option (Provider W)
      → Option (Text → W → W)
      → Go W (ServiceImpl W × Option GoError)
  start_given env s service none p log =
      fails s (codes "service must implement a valid Handlers() function")
  start_given env s service (some handlers) none log =
      fails s (codes "no broker specified on options")
  start_given env s service (some handlers) (some p) none =
      fails s (codes "no logger specified on options")
  start_given env s service (some handlers) (some p) (some log) =
      start_all p env service handlers s.id s.monitor_subs >>= keep_subs s

  -- The guard on the service.
  unfoldable pub start_with :
      Env W → ServiceImpl W → Option (Service W) → Go W (ServiceImpl W × Option GoError)
  start_with env s none = fails s (codes "no service specified on options")
  start_with env s (some service) = start_given env s service service.handlers s.broker s.logger

  unfoldable pub start_opts :
      ServiceImpl W → Option (Options W) → Go W (ServiceImpl W × Option GoError)
  start_opts s none = fails s (codes "API not initialized")
  start_opts s (some o) = start_with o.env s o.service

  -- `StartService`.
  unfoldable pub start_service : ServiceImpl W → Go W (ServiceImpl W × Option GoError)
  start_service s = start_opts s s.opts
