-- ===== src/Api/Service/Plan/Run.antt =====
-- The loops of `StartService` (v2/pkg/spike/api-service-impl.go) run the registrations of a plan.
use spike_broker.Prelude.{◌≡◌, refl, sym, ap, ◌∙◌, Option, none, some, List, [], ◌∷◌, ◌++◌, Text}
use spike_broker.Rids.Base.{Base, live, validate_monitor, validate_publish}
use spike_broker.Broker.Message.{GoError}
use spike_broker.Go.{Go, Exit, value, panic, continue, ◌>>=◌, pure, continue-continue, continue-eq}
use spike_broker.Api.Request.{Env, Subscription}
use spike_broker.Api.Events.{Event, of_monitor, of_publish, event_handler}
use spike_broker.Api.Service.{
  Provider, Service, Subs, on_success, unless_failed, with_subs, subscribe_to, keep, serve_request,
  live_subscription, subscribe_all, monitor_group, monitor_all, subscribe_monitors,
  subscribe_checks, subscribe_live,
}
use spike_broker.Api.Service.Plan.{
  Registration, own, register, run_plan, own_all, group_plan, groups_plan, monitors_plan,
  checks_plan, plan,
}

run_plan-nil :
    {W : Type 0} (p : Provider W) (kept : Subs W) (w : W)
    → run_plan p [] kept w ≡ (value (kept, none), w)
unfolding run_plan
run_plan-nil p kept w = refl

on_success-on_success :
    {W : Type 0} (f g : Subs W → Go W (Subs W × Option GoError)) (r : Subs W × Option GoError)
    (w : W)
    → continue (on_success g) (on_success f r w) ≡ on_success (λ kept. f kept >>= on_success g) r w
on_success-on_success f g (kept, some e) w = refl
on_success-on_success f g (kept, none) w = refl

on_success-eq :
    {W : Type 0} (f g : Subs W → Go W (Subs W × Option GoError))
    → ((kept : Subs W) (w : W) → f kept w ≡ g kept w)
    → (r : Subs W × Option GoError) (w : W) → on_success f r w ≡ on_success g r w
on_success-eq f g h (kept, some e) w = refl
on_success-eq f g h (kept, none) w = h kept w

-- Two steps after one another, as one.
>>=-on_success :
    {W : Type 0} (m : Go W (Subs W × Option GoError))
    (f g : Subs W → Go W (Subs W × Option GoError)) (w : W)
    → (m >>= on_success f >>= on_success g) w
      ≡ (m >>= on_success (λ kept. f kept >>= on_success g)) w
>>=-on_success m f g w =
    continue-continue (on_success f) (on_success g) (m w)
    ∙ continue-eq (λ r. on_success f r >>= on_success g)
        (on_success (λ kept. f kept >>= on_success g)) (on_success-on_success f g) (m w)

>>=-eq :
    {W : Type 0} (m : Go W (Subs W × Option GoError))
    (f g : Subs W → Go W (Subs W × Option GoError))
    → ((kept : Subs W) (w : W) → f kept w ≡ g kept w)
    → (w : W) → (m >>= on_success f) w ≡ (m >>= on_success g) w
>>=-eq m f g h w = continue-eq (on_success f) (on_success g) (on_success-eq f g h) (m w)

-- Steps that leave `monitorSubs` alone, as one.
with_subs-unless_failed :
    {W : Type 0} (kept : Subs W) (m : Go W (Option GoError)) (r : Exit (Option GoError) × W)
    → continue (on_success (λ kept. with_subs kept m)) (continue (λ e. pure (kept, e)) r)
      ≡ continue (λ e. pure (kept, e)) (continue (unless_failed m) r)
with_subs-unless_failed kept m (value (some e), w) = refl
with_subs-unless_failed kept m (value none, w) = refl
with_subs-unless_failed kept m (panic p, w) = refl

with_subs-on_success :
    {W : Type 0} (kept : Subs W) (r : Exit (Option GoError) × W)
    → continue (on_success (λ kept. pure (kept, none))) (continue (λ e. pure (kept, e)) r)
      ≡ continue (λ e. pure (kept, e)) r
with_subs-on_success kept (value (some e), w) = refl
with_subs-on_success kept (value none, w) = refl
with_subs-on_success kept (panic p, w) = refl

with_subs-eq :
    {W : Type 0} (kept : Subs W) (f g : Subs W → Go W (Subs W × Option GoError))
    → ((w : W) → f kept w ≡ g kept w)
    → (r : Exit (Option GoError) × W)
    → continue (on_success f) (continue (λ e. pure (kept, e)) r)
      ≡ continue (on_success g) (continue (λ e. pure (kept, e)) r)
with_subs-eq kept f g h (value (some e), w) = refl
with_subs-eq kept f g h (value none, w) = h w
with_subs-eq kept f g h (panic p, w) = refl

module _ {W : Type 0} (p : Provider W) where
  run_plan-append :
      (rs qs : List (Registration W)) (kept : Subs W) (w : W)
      → run_plan p (rs ++ qs) kept w ≡ (run_plan p rs kept >>= on_success (run_plan p qs)) w
  unfolding run_plan
  run_plan-append [] qs kept w = refl
  run_plan-append (r ∷ rs) qs kept w =
      >>=-eq (register p r kept) (run_plan p (rs ++ qs))
        (λ kept. run_plan p rs kept >>= on_success (run_plan p qs)) (run_plan-append rs qs) w
      ∙ sym (>>=-on_success (register p r kept) (run_plan p rs) (run_plan p qs) w)

  module _ (env : Env W) where
    own_all-run :
        (subs : List (Subscription W)) (kept : Subs W) (w : W)
        → run_plan p (own_all env subs) kept w ≡ with_subs kept (subscribe_all p env subs) w
    unfolding run_plan register own_all subscribe_all
    own_all-run [] kept w = refl
    own_all-run (sub ∷ subs) kept w =
        >>=-eq (with_subs kept (subscribe_to p sub.resource (serve_request env sub)))
          (run_plan p (own_all env subs)) (λ kept. with_subs kept (subscribe_all p env subs))
          (own_all-run subs) w
        ∙ with_subs-unless_failed kept (subscribe_all p env subs)
            (subscribe_to p sub.resource (serve_request env sub) w)

    group_plan-run :
        (g : Text) (subs : List (Subscription W)) (kept : Subs W) (w : W)
        → run_plan p (group_plan env g subs) kept w ≡ monitor_group p env g subs kept w
    unfolding run_plan register group_plan monitor_group
    group_plan-run g [] kept w = refl
    group_plan-run g (sub ∷ subs) kept w =
        >>=-eq (p.monitor g sub.resource (serve_request env sub) >>= keep kept)
          (run_plan p (group_plan env g subs)) (monitor_group p env g subs) (group_plan-run g subs)
          w

    groups_plan-run :
        (name : Text) (groups : List (Text × List (Subscription W))) (kept : Subs W) (w : W)
        → run_plan p (groups_plan env name groups) kept w ≡ monitor_all p env name groups kept w
    unfolding groups_plan monitor_all
    groups_plan-run name [] kept w = run_plan-nil p kept w
    groups_plan-run name ((group, subs) ∷ groups) kept w =
        let g = name ++ (b'-' ∷ group) in
        run_plan-append (group_plan env g subs) (groups_plan env name groups) kept w
        ∙ ap (continue (on_success (run_plan p (groups_plan env name groups))))
            (group_plan-run g subs kept w)
        ∙ >>=-eq (monitor_group p env g subs kept) (run_plan p (groups_plan env name groups))
            (monitor_all p env name groups) (groups_plan-run name groups) w

    monitors_plan-run :
        (name : Text) (groups : Option (List (Text × List (Subscription W)))) (w : W)
        → run_plan p (monitors_plan env name groups) [] w
          ≡ subscribe_monitors p env name groups [] w
    unfolding monitors_plan subscribe_monitors
    monitors_plan-run name none w = run_plan-nil p [] w
    monitors_plan-run name (some groups) w = groups_plan-run name groups [] w

    checks_plan-run :
        (rid : Base) (events : Option (List (Event W))) (kept : Subs W) (w : W)
        → run_plan p (checks_plan env rid events) kept w
          ≡ with_subs kept (subscribe_checks p env rid events) w
    unfolding run_plan register checks_plan subscribe_checks
    checks_plan-run rid none kept w = refl
    checks_plan-run rid (some es) kept w =
        let publish =
          subscribe_to p (validate_publish rid)
            (event_handler env of_publish (some es) (validate_publish rid)) in
        let monitor =
          subscribe_to p (validate_monitor rid)
            (event_handler env of_monitor (some es) (validate_monitor rid)) in
        >>=-eq (with_subs kept monitor)
          (λ k. with_subs k publish >>= on_success (λ k. pure (k, none))) (λ k. with_subs k publish)
          (λ k v. with_subs-on_success k (publish v)) w
        ∙ with_subs-unless_failed kept publish (monitor w)

    -- The registrations after those of the handlers.
    rest_plan-run :
        (service : Service W) (w : W)
        → run_plan p
            (monitors_plan env service.rid.name service.monitors
              ++ checks_plan env service.rid service.events)
            []
            w
          ≡ (subscribe_monitors p env service.rid.name service.monitors []
                >>= on_success
                    (λ kept. with_subs kept (subscribe_checks p env service.rid service.events)))
              w
    rest_plan-run service w =
        let monitors = monitors_plan env service.rid.name service.monitors in
        let checks = checks_plan env service.rid service.events in
        run_plan-append monitors checks [] w
        ∙ ap (continue (on_success (run_plan p checks)))
            (monitors_plan-run service.rid.name service.monitors w)
        ∙ >>=-eq (subscribe_monitors p env service.rid.name service.monitors []) (run_plan p checks)
            (λ kept. with_subs kept (subscribe_checks p env service.rid service.events))
            (checks_plan-run service.rid service.events) w

    live_plan-run :
        (service : Service W) (w : W)
        → run_plan p
            (own (live service.rid) (serve_request env (live_subscription env service.rid))
              ∷ (monitors_plan env service.rid.name service.monitors
                  ++ checks_plan env service.rid service.events))
            []
            w
          ≡ (with_subs [] (subscribe_live p env service.rid)
                >>= on_success (subscribe_monitors p env service.rid.name service.monitors)
                >>= on_success
                    (λ kept. with_subs kept (subscribe_checks p env service.rid service.events)))
              w
    unfolding run_plan register subscribe_live
    live_plan-run service w =
        let step = subscribe_live p env service.rid in
        let monitors = subscribe_monitors p env service.rid.name service.monitors in
        let checks =
          λ (kept : Subs W). with_subs kept (subscribe_checks p env service.rid service.events) in
        with_subs-eq []
          (run_plan p (
            monitors_plan env service.rid.name service.monitors
            ++ checks_plan env service.rid service.events))
          (λ kept. monitors kept >>= on_success checks) (rest_plan-run service) (step w)
        ∙ sym (>>=-on_success (with_subs [] step) monitors checks w)

    pub plan-run :
        (service : Service W) (handlers : List (Subscription W)) (w : W)
        → run_plan p (plan env service handlers) [] w
          ≡ (with_subs [] (subscribe_all p env handlers)
                >>= on_success (λ kept. with_subs kept (subscribe_live p env service.rid))
                >>= on_success (subscribe_monitors p env service.rid.name service.monitors)
                >>= on_success
                    (λ kept. with_subs kept (subscribe_checks p env service.rid service.events)))
              w
    unfolding plan
    plan-run service handlers w =
        let step = λ (kept : Subs W). with_subs kept (subscribe_live p env service.rid) in
        let monitors = subscribe_monitors p env service.rid.name service.monitors in
        let checks =
          λ (kept : Subs W). with_subs kept (subscribe_checks p env service.rid service.events) in
        let first = with_subs [] (subscribe_all p env handlers) in
        let rest =
          own (live service.rid) (serve_request env (live_subscription env service.rid))
          ∷ (monitors_plan env service.rid.name service.monitors
              ++ checks_plan env service.rid service.events) in
        run_plan-append (own_all env handlers) rest [] w
        ∙ ap (continue (on_success (run_plan p rest))) (own_all-run handlers [] w)
        ∙ with_subs-eq [] (run_plan p rest)
            (λ kept. step kept >>= on_success monitors >>= on_success checks)
            (live_plan-run service) (subscribe_all p env handlers w)
        ∙ sym (>>=-on_success first (λ kept. step kept >>= on_success monitors) checks w)
        ∙ ap (continue (on_success checks)) (sym (>>=-on_success first step monitors w))
