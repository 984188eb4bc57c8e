-- ===== src/Api/Service/Lifecycle.antt =====
-- StartService and Stop of v2/pkg/spike/api-service-impl.go: the monitors that a service leaves
-- behind.
pub mod Ended
use mathlib.Core.Path.{subst}
use spike_broker.Prelude.{
  ℕ, zero, suc, ◌+◌, ◌-◌, ◌*◌, ◌/◌, ◌%◌, ◌^◌, ◌≤◌, ◌<◌, ◌≡◌, refl, sym, ap, ◌∙◌, ◌≢◌, ◌↔◌, ◌⊎◌, inl,
  inr, Bool, true, false, not, ◌&&◌, ◌||◌, Option, none, some, List, [], ◌∷◌, ◌++◌, map, arith, ltb,
  leb, ◌==◌, if◌then◌else◌, ==_iff, Bool-cases, Option-cases, length, length-append, is_empty, drop,
  find, filter, drop_last, All, All-append, All-left, Text, codes, text_eq, text_eq_refl,
  text_eq_iff, text_eq_ne, Dict, lookup, insert, lookup-insert, contains,
}
use spike_broker.Rids.Pattern.{Pattern}
use spike_broker.Broker.Message.{ErrorMessage, GoError}
use spike_broker.Go.{Go, Exit, value, panic, continue, ◌>>=◌, ◌>>◌, pure}
use spike_broker.Api.Request.{Env, Subscription}
use spike_broker.Api.Service.{
  Provider, Service, Options, ServiceImpl, ServiceHandler, Subs, on_success, with_subs, keep,
  keep_subs, error_of, subscribe_to, start_service,
}
use spike_broker.Api.Service.Plan.{Registration, own, monitoring, register, run_plan, plan}
use spike_broker.Api.Service.Start.{start_service-plan}
use spike_broker.Api.Service.Stop.{
  log_line, unsubscribe_all, stop_monitors, stop_of, stop_opts, stop,
}

-- `Active w i` says that the monitor `i` is served in the state `w`.
module _ {W : Type 0} (Active : W → ℕ → Type 0) where
  -- No monitor is active in `v` that is not active in `w`.
  abbrev pub NoMore : W → W → Type 0
  NoMore w v = (i : ℕ) → Active v i → Active w i

  -- The call returns, in a state of which `P` holds.
  abbrev pub Reaches : Go W (Unit {0}) → W → (W → Type 0) → Type 0
  Reaches m w P = (v : W) × (m w ≡ (value tt, v)) × P v

  abbrev pub Shrinks : Go W (Unit {0}) → Type 0
  Shrinks u = (w : W) → Reaches u w (NoMore w)

  -- A function that ends one monitor, and does nothing to one that has ended.
  abbrev pub Ends : ℕ → Go W (Unit {0}) → Type 0
  Ends i u = (w : W) → Reaches u w (λ v. NoMore w v × (Active v i → ⊥))

  -- What a provider does to the monitors: one that is accepted may be active from then on, and
  -- comes with a function that ends it, which can be called in any state and any number of times.
  pub record Tracks (p : Provider W) : Type 0 where
    pub subscribing : (r : Pattern) (h : ServiceHandler W) (w : W) → NoMore w (p.subscribe r h w).1
    pub refused :
        (g : Text) (r : Pattern) (h : ServiceHandler W) (w : W) (e : ErrorMessage)
        (u : Go W (Unit {0})) (v : W)
        → p.monitor g r h w ≡ (value (some e, u), v)
        → NoMore w v
    pub accepted :
        (g : Text) (r : Pattern) (h : ServiceHandler W) (w : W) (u : Go W (Unit {0})) (v : W)
        → p.monitor g r h w ≡ (value (none, u), v)
        → (i : ℕ) × ((j : ℕ) → Active v j → (i ≡ j) ⊎ Active w j) × Ends i u

  abbrev pub EndedBy : ℕ → Subs W → Type 0
  EndedBy i [] = ⊥
  EndedBy i (u ∷ us) = Ends i u ⊎ EndedBy i us

  EndedBy-append :
      (i : ℕ) (us : Subs W) (u : Go W (Unit {0}))
      → EndedBy i us ⊎ Ends i u
      → EndedBy i (us ++ (u ∷ []))
  EndedBy-append i [] u (inl e) = absurd e
  EndedBy-append i [] u (inr e) = inl e
  EndedBy-append i (v ∷ us) u (inl (inl e)) = inl e
  EndedBy-append i (v ∷ us) u (inl (inr e)) = inr (EndedBy-append i us u (inl e))
  EndedBy-append i (v ∷ us) u (inr e) = inr (EndedBy-append i us u (inr e))

  Ends-Shrinks : (i : ℕ) (u : Go W (Unit {0})) → Ends i u → Shrinks u
  Ends-Shrinks i u e w = let (v, eq, (less, gone)) = e w in (v, eq, less)

  -- After a call that ends `i` and has led to `v`, it is not active.
  Ends-gone :
      (i : ℕ) (u : Go W (Unit {0})) (w v : W) → Ends i u → u w ≡ (value tt, v) → Active v i → ⊥
  Ends-gone i u w v e eq a =
      let (v', eq', (less, gone)) = e w in
      gone (subst (λ x. Active x i) (ap (λ (r : Exit (Unit {0}) × W). r.1) (sym eq ∙ eq')) a)

  -- The monitors that were not active at first, in the state `b`, are ended by the functions kept.
  module _ (b : W) where
    abbrev pub Covered : Subs W → W → Type 0
    Covered kept w = (i : ℕ) → Active w i → Active b i ⊎ EndedBy i kept

    abbrev pub Kept : Subs W → W → Type 0
    Kept kept w = Covered kept w × All Shrinks kept

    Kept-NoMore : (kept : Subs W) (w v : W) → NoMore w v → Kept kept w → Kept kept v
    Kept-NoMore kept w v less (covered, shrink) = (λ i a. covered i (less i a), shrink)

    abbrev pub Good : Exit (Subs W × Option GoError) × W → Type 0
    Good (value (kept, e), w) = Kept kept w
    Good (panic q, w) = Unit

    pub with_subs-Good :
        (kept : Subs W) (w : W) (r : Exit (Option GoError) × W)
        → NoMore w r.1
        → Kept kept w
        → Good (continue (λ e. pure (kept, e)) r)
    with_subs-Good kept w (value e, v) less k = Kept-NoMore kept w v less k
    with_subs-Good kept w (panic q, v) less k = tt

    subscribe_to-NoMore :
        (w : W) (r : Exit (Option ErrorMessage × Go W (Unit {0})) × W)
        → NoMore w r.1
        → NoMore w (continue (λ x. pure (error_of x)) r).1
    subscribe_to-NoMore w (value x, v) less = less
    subscribe_to-NoMore w (panic q, v) less = less

    pub on_success-Good :
        (f : Subs W → Go W (Subs W × Option GoError))
        → ((kept : Subs W) (w : W) → Kept kept w → Good (f kept w))
        → (r : Exit (Subs W × Option GoError) × W) → Good r
        → Good (continue (on_success f) r)
    on_success-Good f h (value (kept, some e), w) k = k
    on_success-Good f h (value (kept, none), w) k = h kept w k
    on_success-Good f h (panic q, w) k = tt

    accepted-Covered :
        (kept : Subs W) (u : Go W (Unit {0})) (w : W) (i j : ℕ)
        → Ends i u
        → Covered kept w
        → (i ≡ j) ⊎ Active w j
        → Active b j ⊎ EndedBy j (kept ++ (u ∷ []))
    accepted-Covered kept u w i j end covered (inl same) =
        inr (EndedBy-append j kept u (inr (subst (λ x. Ends x u) same end)))
    accepted-Covered kept u w i j end covered (inr before) = elim (covered j before) [
      | inl first ↦ inl first
      | inr ended ↦ inr (EndedBy-append j kept u (inl ended))
    ]

    module _ (p : Provider W) (laws : Tracks p) where
      keep-Good :
          (g : Text) (r : Pattern) (h : ServiceHandler W) (kept : Subs W) (w : W)
          (x : Exit (Option ErrorMessage × Go W (Unit {0})) × W)
          → p.monitor g r h w ≡ x
          → Kept kept w
          → Good (continue (keep kept) x)
      keep-Good g r h kept w (value (some e, u), v) eq k =
          Kept-NoMore kept w v (laws.refused g r h w e u v eq) k
      keep-Good g r h kept w (value (none, u), v) eq (covered, shrink) =
          let (i, more, end) = laws.accepted g r h w u v eq in
          (
            λ j a. accepted-Covered kept u w i j end covered (more j a),
            All-append Shrinks kept (u ∷ []) shrink (Ends-Shrinks i u end, tt),
          )
      keep-Good g r h kept w (panic q, v) eq k = tt

      register-Good :
          (r : Registration W) (kept : Subs W) (w : W) → Kept kept w → Good (register p r kept w)
      unfolding register
      register-Good (own r h) kept w k =
          with_subs-Good kept w (subscribe_to p r h w)
            (subscribe_to-NoMore w (p.subscribe r h w) (laws.subscribing r h w)) k
      register-Good (monitoring g r h) kept w k = keep-Good g r h kept w (p.monitor g r h w) refl k

      pub run_plan-Good :
          (rs : List (Registration W)) (kept : Subs W) (w : W)
          → Kept kept w
          → Good (run_plan p rs kept w)
      unfolding run_plan
      run_plan-Good [] kept w k = k
      run_plan-Good (r ∷ rs) kept w k =
          on_success-Good (run_plan p rs) (run_plan-Good rs) (register p r kept w)
            (register-Good r kept w k)

  -- One call after another.
  pub >>-Reaches :
      (m k : Go W (Unit {0})) (w : W) (P Q : W → Type 0)
      → Reaches m w P
      → ((v : W) → m w ≡ (value tt, v) → P v → Reaches k v Q)
      → Reaches (m >> k) w Q
  >>-Reaches m k w P Q (v, e, a) h =
      let (u, e', a') = h v e a in (u, ap (continue (λ _. k)) e ∙ e', a')

  -- After the first of the functions, the others end what is left.
  unsubscribed-Covered :
      (b : W) (u : Go W (Unit {0})) (kept : Subs W) (w v : W)
      → u w ≡ (value tt, v)
      → NoMore w v
      → Covered b (u ∷ kept) w
      → Covered b kept v
  unsubscribed-Covered b u kept w v eq less covered i a = elim (covered i (less i a)) [
    | inl first ↦ inl first
    | inr (inl end) ↦ absurd (Ends-gone i u w v end eq a)
    | inr (inr later) ↦ inr later
  ]

  unsubscribe_all-Reaches :
      (b : W) (kept : Subs W) (w : W) → Kept b kept w → Reaches (unsubscribe_all kept) w (NoMore b)
  unfolding unsubscribe_all
  unsubscribe_all-Reaches b [] w (covered, shrink) =
      (w, refl, λ i a. elim (covered i a) [ inl first ↦ first | inr none_left ↦ absurd none_left ])
  unsubscribe_all-Reaches b (u ∷ kept) w (covered, (shrink, shrinks)) =
      >>-Reaches u (unsubscribe_all kept) w (NoMore w) (NoMore b) (shrink w) λ v eq less.
        unsubscribe_all-Reaches b kept v
          (unsubscribed-Covered b u kept w v eq less covered, shrinks)

  module _ (log : Text → W → W) (quiet : (t : Text) (w : W) → NoMore w (log t w)) (b : W) where
    pub log_line-Reaches :
        (t : Text) (w : W) → NoMore b w → Reaches (log_line (some log) t) w (NoMore b)
    unfolding log_line
    log_line-Reaches t w less = (_, refl, λ i a. less i (quiet t w i a))

    pub stop_monitors-Reaches :
        (kept : Subs W) (w : W)
        → Kept b kept w
        → Reaches (stop_monitors (some log) kept) w (NoMore b)
    unfolding stop_monitors
    stop_monitors-Reaches [] w k =
        log_line-Reaches _ w (λ i a. elim (k.0 i a) [ inl f ↦ f | inr n ↦ absurd n ])
    stop_monitors-Reaches (u ∷ kept) w k =
        >>-Reaches (unsubscribe_all (u ∷ kept)) (log_line (some log) _) w (NoMore b) (NoMore b)
          (unsubscribe_all-Reaches b (u ∷ kept) w k) λ v eq less. log_line-Reaches _ v less
