-- ===== src/Api/Service/Start.antt =====
-- `StartService` of v2/pkg/spike/api-service-impl.go on a service that has been set up.
use spike_broker.Prelude.{◌≡◌, sym, ap, ◌∙◌, Option, some, List, [], Text}
use spike_broker.Broker.Message.{GoError}
use spike_broker.Go.{Go, continue, ◌>>=◌}
use spike_broker.Api.Request.{Env, Subscription}
use spike_broker.Api.Service.{
  Provider, Service, Options, ServiceImpl, on_success, with_subs, keep_subs, start_all, start_given,
  start_opts, start_with, start_service, Subs,
}
use spike_broker.Api.Service.Plan.{plan, run_plan}
use spike_broker.Api.Service.Plan.Run.{plan-run}

start_all-plan :
    {W : Type 0} (p : Provider W) (env : Env W) (service : Service W)
    (handlers : List (Subscription W)) (id : Text) (w : W)
    → start_all p env service handlers id [] w
      ≡ (run_plan p (plan env service handlers) []
            >>= on_success (λ kept. with_subs kept (service.start id)))
          w
unfolding start_all
start_all-plan p env service handlers id w =
    ap (continue (on_success (λ kept. with_subs kept (service.start id))))
      (sym (plan-run p env service handlers w))

start_given-plan :
    {W : Type 0} (env : Env W) (s : ServiceImpl W) (service : Service W)
    (handlers : List (Subscription W)) (p : Provider W) (log : Text → W → W) (w : W)
    → s.monitor_subs ≡ []
    → start_given env s service (some handlers) (some p) (some log) w
      ≡ (run_plan p (plan env service handlers) []
            >>= on_success (λ kept. with_subs kept (service.start s.id))
            >>= keep_subs s)
          w
unfolding start_given
start_given-plan {W} env s service handlers p log w em =
    ap (λ (kept : Subs W). continue (keep_subs s) (start_all p env service handlers s.id kept w)) em
    ∙ ap (continue (keep_subs s)) (start_all-plan p env service handlers s.id w)

start_service-given :
    {W : Type 0} (o : Options W) (s : ServiceImpl W) (service : Service W)
    (handlers : List (Subscription W)) (p : Provider W) (log : Text → W → W)
    → s.opts ≡ some o
    → o.service ≡ some service
    → service.handlers ≡ some handlers
    → s.broker ≡ some p
    → s.logger ≡ some log
    → start_service s ≡ start_given o.env s service (some handlers) (some p) (some log)
unfolding start_service start_opts start_with
start_service-given {W} o s service handlers p log eo es eh eb el =
    ap (start_opts s) eo
    ∙ ap (start_with o.env s) es
    ∙ ap (λ (x : Option (List (Subscription W))). start_given o.env s service x s.broker s.logger)
        eh
    ∙ ap (λ (x : Option (Provider W)). start_given o.env s service (some handlers) x s.logger) eb
    ∙ ap (start_given o.env s service (some handlers) (some p)) el

-- On a service that is set up and holds no monitors, `StartService` runs the registrations of its
-- plan in their order (handlers, the live method, monitors group by group, the two checks of a
-- service with events) up to the first that fails, and calls the service's `Start` only if all
-- have succeeded. The monitors it keeps and its error are those of that run.
pub start_service-plan :
    {W : Type 0} (o : Options W) (s : ServiceImpl W) (service : Service W)
    (handlers : List (Subscription W)) (p : Provider W) (log : Text → W → W) (w : W)
    → s.opts ≡ some o
    → o.service ≡ some service
    → service.handlers ≡ some handlers
    → s.broker ≡ some p
    → s.logger ≡ some log
    → s.monitor_subs ≡ []
    → start_service s w
      ≡ (run_plan p (plan o.env service handlers) []
            >>= on_success (λ kept. with_subs kept (service.start s.id))
            >>= keep_subs s)
          w
start_service-plan {W} o s service handlers p log w eo es eh eb el em =
    ap (λ (f : Go W (ServiceImpl W × Option GoError)). f w)
      (start_service-given o s service handlers p log eo es eh eb el)
    ∙ start_given-plan o.env s service handlers p log w em
