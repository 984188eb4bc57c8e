-- ===== src/Api/Service/Lifecycle/Ended.antt =====
-- `Stop` after `StartService` (v2/pkg/spike/api-service-impl.go).
use mathlib.Core.Path.{subst, subst⁻¹}
use spike_broker.Prelude.{ℕ, ◌≡◌, ap, ◌∙◌, inl, true, Option, none, some, List, [], Text, codes}
use spike_broker.Broker.Message.{GoError}
use spike_broker.Go.{Exit, value, panic, continue, ◌>>=◌, ◌>>◌, pure}
use spike_broker.Api.Request.{Subscription}
use spike_broker.Api.Service.{
  Provider, Service, Options, ServiceImpl, Subs, on_success, with_subs, keep_subs, start_service,
}
use spike_broker.Api.Service.Plan.{plan, run_plan}
use spike_broker.Api.Service.Start.{start_service-plan}
use spike_broker.Api.Service.Stop.{log_line, stop_monitors, stop_of, stop_opts, stop}
use spike_broker.Api.Service.Lifecycle.{
  NoMore, Reaches, Tracks, Kept, Good, with_subs-Good, on_success-Good, run_plan-Good, >>-Reaches,
  stop_monitors-Reaches, log_line-Reaches,
}

module _ {W : Type 0} (Active : W → ℕ → Type 0) (log : Text → W → W)
    (quiet : (t : Text) (w : W) → NoMore Active w (log t w)) (o : Options W) (service : Service W)
    (served : o.service ≡ some service)
    (starts : (id : Text) (w : W) → NoMore Active w (service.start id w).1)
    (stops : (w : W) → Reaches Active service.stop w (NoMore Active w)) (b : W) where
  -- A service that has been started, with an error or without.
  abbrev Started : Exit (ServiceImpl W × Option GoError) × W → Type 0
  Started (value (s, e), w) =
      (s.opts ≡ some o) × (s.logger ≡ some log) × Kept Active b s.monitor_subs w
  Started (panic q, w) = Unit

  keep_subs-Started :
      (s : ServiceImpl W) (r : Exit (Subs W × Option GoError) × W)
      → s.opts ≡ some o
      → s.logger ≡ some log
      → Good Active b r
      → Started (continue (keep_subs s) r)
  keep_subs-Started s (value (kept, e), w) eo el k = (eo, el, k)
  keep_subs-Started s (panic q, w) eo el k = tt

  start_service-Started :
      (s : ServiceImpl W) (handlers : List (Subscription W)) (p : Provider W)
      → Tracks Active p
      → s.opts ≡ some o
      → service.handlers ≡ some handlers
      → s.broker ≡ some p
      → s.logger ≡ some log
      → s.monitor_subs ≡ []
      → Started (start_service s b)
  start_service-Started s handlers p laws eo eh eb el em =
      let rs = plan o.env service handlers in
      subst⁻¹ Started (start_service-plan o s service handlers p log b eo served eh eb el em) (
        keep_subs-Started s
          ((run_plan p rs [] >>= on_success (λ kept. with_subs kept (service.start s.id))) b) eo el
          (on_success-Good Active b (λ kept. with_subs kept (service.start s.id))
            (λ kept v k. with_subs-Good Active b kept v (service.start s.id v) (starts s.id v) k)
            (run_plan p rs [] b) (run_plan-Good Active b p laws rs [] b (λ i a. inl a, tt))))

  stop_of-Reaches :
      (w : W) → NoMore Active b w → Reaches Active (stop_of o.service) w (NoMore Active b)
  unfolding stop_of
  stop_of-Reaches w less =
      subst⁻¹ (λ x. Reaches Active (stop_of x) w (NoMore Active b)) served
        (let (v, eq, fewer) = stops w in (v, eq, λ i a. less i (fewer i a)))

  -- The calls of `Stop` before it cancels the context.
  steps-Reaches :
      (kept : Subs W) (line : Text) (w : W)
      → Kept Active b kept w
      → Reaches Active
          (stop_monitors (some log) kept >> stop_of o.service >> log_line (some log) line)
          w
          (NoMore Active b)
  steps-Reaches kept line w k =
      >>-Reaches Active (stop_monitors (some log) kept >> stop_of o.service)
        (log_line (some log) line) w (NoMore Active b) (NoMore Active b)
        (>>-Reaches Active (stop_monitors (some log) kept) (stop_of o.service) w (NoMore Active b)
          (NoMore Active b) (stop_monitors-Reaches Active log quiet b kept w k)
          (λ v eq less. stop_of-Reaches v less))
        (λ v eq less. log_line-Reaches Active log quiet b line v less)

  stop_opts-Reaches :
      (s : ServiceImpl W) (w : W)
      → s.logger ≡ some log
      → Kept Active b s.monitor_subs w
      → (v : W) × (stop_opts s (some o) w ≡ (value (record s { cancelled = true }, none), v))
        × NoMore Active b v
  unfolding stop_opts
  stop_opts-Reaches s w el k =
      let line = codes "stopping: service stopped, cancelling context" in
      let (v, e, a) =
        subst⁻¹
          (λ (x : Option (Text → W → W)).
            Reaches Active (stop_monitors x s.monitor_subs >> stop_of o.service >> log_line x line)
              w (NoMore Active b))
          el (steps-Reaches s.monitor_subs line w k) in
      (v, ap (continue (λ _. pure (record s { cancelled = true }, none))) e, a)

  -- A service that is started, and then stopped, leaves no monitor active that was not active
  -- before the start, whether the start has succeeded or has failed at any subscription, and the
  -- stop returns no error. A monitor that the provider accepts comes with a function that ends it
  -- in whatever state it is called; nothing else makes a monitor active, and the service's own
  -- `Stop` ends.
  pub stop-start_service :
      (s t : ServiceImpl W) (handlers : List (Subscription W)) (p : Provider W) (e : Option GoError)
      (u : W)
      → Tracks Active p
      → s.opts ≡ some o
      → service.handlers ≡ some handlers
      → s.broker ≡ some p
      → s.logger ≡ some log
      → s.monitor_subs ≡ []
      → start_service s b ≡ (value (t, e), u)
      → (v : W) × (stop t u ≡ (value (record t { cancelled = true }, none), v)) × NoMore Active b v
  unfolding stop
  stop-start_service s t handlers p e u laws eo eh eb el em ran =
      let (to, tl, k) =
        subst Started ran (start_service-Started s handlers p laws eo eh eb el em) in
      let (v, returned, ended) = stop_opts-Reaches t u tl k in
      (v, ap (λ (x : Option (Options W)). stop_opts t x u) to ∙ returned, ended)
