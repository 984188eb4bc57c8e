-- ===== src/Tests/Service.antt =====
-- A toy service with a handler, a monitor in each of two groups, and an event.
use spike_broker.Prelude.{◌≡◌, refl, false, Option, none, some, [], ◌∷◌, Text, codes}
use spike_broker.Rids.Pattern.{Pattern, endpoint_name}
use spike_broker.Rids.Base.{Base}
use spike_broker.Broker.Message.{ErrorMessage}
use spike_broker.Go.{Go, pure, act, value, ◌>>=◌, ◌>>◌}
use spike_broker.Api.Request.{Subscription}
use spike_broker.Api.Service.{
  Provider, Service, Options, ServiceImpl, start_service, on_success, with_subs, keep_subs,
  ServiceHandler,
}
use spike_broker.Api.Service.Plan.{plan, run_plan}
use spike_broker.Api.Service.Start.{start_service-plan}
use spike_broker.Tests.World.{Mail, item, sold, env}

abbrev note : Text → Text → Mail → Mail
note subject text w = (subject, text) ∷ w

abbrev taken :
    Text → Pattern → ServiceHandler Mail → Go Mail (Option ErrorMessage × Go Mail (Unit {0}))
taken group r h w = (value (none, act (note (codes "end") group)), note group (endpoint_name r) w)

abbrev provider : Provider Mail
provider = record { subscribe = taken []; monitor = taken }

abbrev pub shop : Base
shop = record { name = codes "shop"; label = []; http_prefix = []; ws_prefix = []; version = 2 }

abbrev sub : Pattern → Subscription Mail
sub r = record { resource = r; handler = λ m. pure tt; validators = [] }

abbrev service : Service Mail
service = record {
  rid = shop;
  handlers = some (sub item ∷ []);
  monitors = some ((codes "a", sub sold ∷ []) ∷ (codes "b", sub sold ∷ []) ∷ []);
  events = some [];
  broker = some provider;
  logger = some (note (codes "log"));
  start = λ id. act (note (codes "start") id) >> pure none;
  stop = act (note (codes "stop") []);
}

abbrev options : Options Mail
options = record { service = some service; env = env }

abbrev impl : ServiceImpl Mail
impl = record {
  opts = some options;
  cancelled = false;
  id = codes "1";
  broker = some provider;
  logger = some (note (codes "log"));
  monitor_subs = [];
}

start_service-plan_example :
    start_service impl []
    ≡ (run_plan provider (plan env service (sub item ∷ [])) []
          >>= on_success (λ kept. with_subs kept (service.start (codes "1")))
          >>= keep_subs impl)
        []
start_service-plan_example =
    start_service-plan options impl service (sub item ∷ []) provider (note (codes "log")) [] refl
      refl refl refl refl refl
