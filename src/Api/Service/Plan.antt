-- ===== src/Api/Service/Plan.antt =====
-- `StartService` of v2/pkg/spike/api-service-impl.go as one sequence of subscriptions.
pub mod Run
use spike_broker.Prelude.{◌≡◌, refl, sym, ap, ◌∙◌, Option, none, some, List, [], ◌∷◌, ◌++◌, Text}
use spike_broker.Rids.Pattern.{Pattern}
use spike_broker.Rids.Base.{Base, live, validate_monitor, validate_publish}
use spike_broker.Broker.Message.{GoError}
use spike_broker.Go.{Go, Exit, value, panic, continue, ◌>>=◌, pure, continue-continue, continue-eq}
use spike_broker.Api.Request.{Env, Subscription}
use spike_broker.Api.Events.{Event, of_monitor, of_publish, event_handler}
use spike_broker.Api.Service.{
  Provider, Service, ServiceHandler, Subs, on_success, unless_failed, with_subs, subscribe_to, keep,
  serve_request, live_subscription, subscribe_all, monitor_group, monitor_all, subscribe_monitors,
  subscribe_checks, subscribe_live,
}

-- A subscription in the service's own group, or in a named one.
pub data Registration (W : Type 0) : Type 0 where
  own : Pattern → ServiceHandler W → Registration W
  monitoring : Text → Pattern → ServiceHandler W → Registration W

module _ {W : Type 0} (p : Provider W) where
  unfoldable pub register : Registration W → Subs W → Go W (Subs W × Option GoError)
  register (own r h) kept = with_subs kept (subscribe_to p r h)
  register (monitoring g r h) kept = p.monitor g r h >>= keep kept

  -- The registrations one by one, up to the first that fails.
  unfoldable pub run_plan : List (Registration W) → Subs W → Go W (Subs W × Option GoError)
  run_plan [] kept = pure (kept, none)
  run_plan (r ∷ rs) kept = register r kept >>= on_success (run_plan rs)

module _ {W : Type 0} (env : Env W) where
  unfoldable pub own_all : List (Subscription W) → List (Registration W)
  own_all [] = []
  own_all (sub ∷ subs) = own sub.resource (serve_request env sub) ∷ own_all subs

  unfoldable pub group_plan : Text → List (Subscription W) → List (Registration W)
  group_plan g [] = []
  group_plan g (sub ∷ subs) = monitoring g sub.resource (serve_request env sub) ∷ group_plan g subs

  unfoldable pub groups_plan : Text → List (Text × List (Subscription W)) → List (Registration W)
  groups_plan name [] = []
  groups_plan name ((group, subs) ∷ groups) =
      group_plan (name ++ (b'-' ∷ group)) subs ++ groups_plan name groups

  unfoldable pub monitors_plan :
      Text → Option (List (Text × List (Subscription W))) → List (Registration W)
  monitors_plan name none = []
  monitors_plan name (some groups) = groups_plan name groups

  unfoldable pub checks_plan : Base → Option (List (Event W)) → List (Registration W)
  checks_plan rid none = []
  checks_plan rid (some es) =
      own (validate_monitor rid) (event_handler env of_monitor (some es) (validate_monitor rid))
      ∷ own (validate_publish rid) (event_handler env of_publish (some es) (validate_publish rid))
      ∷ []

  -- All that a service subscribes to, in order.
  unfoldable pub plan : Service W → List (Subscription W) → List (Registration W)
  plan service handlers =
      own_all handlers
      ++ (own (live service.rid) (serve_request env (live_subscription env service.rid))
          ∷ (monitors_plan service.rid.name service.monitors
              ++ checks_plan service.rid service.events))
