-- ===== src/Tests/Lifecycle.antt =====
-- A toy service that monitors twice, on a provider that numbers its monitors.
use mathlib.Core.Path.{subst, subst⁻¹}
use spike_broker.Prelude.{
  ℕ, suc, ◌≡◌, refl, ap, ◌⊎◌, inl, inr, Bool, true, false, Option, none, some, List, [], ◌∷◌, arith,
  ◌==◌, if◌then◌else◌, ==_iff, Text, codes,
}
use spike_broker.Rids.Pattern.{Pattern}
use spike_broker.Broker.Message.{ErrorMessage}
use spike_broker.Go.{Exit, Go, pure, value, panic}
use spike_broker.Api.Request.{Env, Subscription}
use spike_broker.Api.Service.{
  Provider, Service, Options, ServiceImpl, ServiceHandler, start_service, start_opts, start_with,
  start_given, start_all, subscribe_all, subscribe_live, subscribe_monitors, monitor_all,
  monitor_group, subscribe_checks,
}
use spike_broker.Api.Service.Stop.{stop}
use spike_broker.Api.Service.Lifecycle.{Tracks, Ends}
use spike_broker.Api.Service.Lifecycle.Ended.{stop-start_service}
use spike_broker.Tests.World.{item, sold, codec}
use spike_broker.Tests.Service.{shop}

-- The number of the next monitor, and the numbers of the active ones.
abbrev World : Type 0
World = ℕ × List ℕ

abbrev env : Env World
env = record {
  codec = codec;
  send = λ reply payload w. w;
  caller = none;
  validate_token = λ t. pure (t, true);
  has_permission = λ m. pure true;
  log = λ t w. w;
}

abbrev Holds : List ℕ → ℕ → Type 0
Holds [] i = ⊥
Holds (x ∷ xs) i = (x ≡ i) ⊎ Holds xs i

abbrev Active : World → ℕ → Type 0
Active w i = Holds w.1 i

abbrev remove : ℕ → List ℕ → List ℕ
remove i [] = []
remove i (x ∷ xs) = let rest = remove i xs in if x == i then rest else x ∷ rest

Holds-if :
    (b : Bool) (x j : ℕ) (xs ys : List ℕ)
    → (Holds ys j → Holds xs j)
    → Holds (if b then ys else x ∷ ys) j
    → Holds (x ∷ xs) j
Holds-if true x j xs ys h a = inr (h a)
Holds-if false x j xs ys h (inl e) = inl e
Holds-if false x j xs ys h (inr a) = inr (h a)

Holds-remove : (i j : ℕ) (xs : List ℕ) → Holds (remove i xs) j → Holds xs j
Holds-remove i j [] a = absurd a
Holds-remove i j (x ∷ xs) a = Holds-if (x == i) x j xs (remove i xs) (Holds-remove i j xs) a

not_Holds-if :
    (b : Bool) (x i : ℕ) (ys : List ℕ)
    → x == i ≡ b
    → (Holds ys i → ⊥)
    → Holds (if b then ys else x ∷ ys) i
    → ⊥
not_Holds-if true x i ys e h a = h a
not_Holds-if false x i ys e h (inl same) = cc ((==_iff x i).1 same, e)
not_Holds-if false x i ys e h (inr a) = h a

not_Holds-remove : (i : ℕ) (xs : List ℕ) → Holds (remove i xs) i → ⊥
not_Holds-remove i [] a = a
not_Holds-remove i (x ∷ xs) a =
    not_Holds-if (x == i) x i (remove i xs) refl (not_Holds-remove i xs) a

abbrev end : ℕ → Go World (Unit {0})
end i w = (value tt, (w.0, remove i w.1))

end-Ends : (i : ℕ) → Ends Active i (end i)
end-Ends i w = (_, refl, (λ j a. Holds-remove i j w.1 a, not_Holds-remove i w.1))

abbrev accept :
    Text → Pattern → ServiceHandler World → Go World (Option ErrorMessage × Go World (Unit {0}))
accept g r h (n, xs) = (value (none, end n), (suc n, n ∷ xs))

abbrev provider : Provider World
provider = record { subscribe = λ r h w. (value (none, pure tt), w); monitor = accept }

abbrev function_of : Exit (Option ErrorMessage × Go World (Unit {0})) × World → Go World (Unit {0})
function_of (value (o, u), w) = u
function_of (panic q, w) = pure tt

abbrev state_of : Exit (Option ErrorMessage × Go World (Unit {0})) × World → World
state_of r = r.1

provider-Tracks : Tracks Active provider
provider-Tracks = record {
  subscribing = λ r h w i a. a;
  refused = λ g r h w e u v eq. absurd (ground arith);
  accepted = λ g r h w u v eq. (
    w.0,
    λ j a. subst⁻¹ (λ x. Holds x.1 j) (ap state_of eq) a,
    subst (Ends Active w.0) (ap function_of eq) (end-Ends w.0),
  );
}

abbrev sub : Pattern → Subscription World
sub r = record { resource = r; handler = λ m. pure tt; validators = [] }

abbrev service : Service World
service = record {
  rid = shop;
  handlers = some (sub item ∷ []);
  monitors = some ((codes "a", sub sold ∷ []) ∷ (codes "b", sub sold ∷ []) ∷ []);
  events = none;
  broker = some provider;
  logger = some (λ t w. w);
  start = λ id. pure none;
  stop = pure tt;
}

abbrev options : Options World
options = record { service = some service; env = env }

abbrev idle : ServiceImpl World
idle = record {
  opts = some options;
  cancelled = false;
  id = codes "1";
  broker = some provider;
  logger = some (λ t w. w);
  monitor_subs = [];
}

abbrev running : ServiceImpl World
running = record idle { monitor_subs = end 4 ∷ end 5 ∷ [] }

stop-start_service_example :
    (v : World) × (stop running (6, 5 ∷ 4 ∷ 2 ∷ [])
      ≡ (value (record running { cancelled = true }, none), v))
    × ((i : ℕ) → Active v i → Active (4, 2 ∷ []) i)
unfolding start_service start_opts start_with start_given start_all subscribe_all subscribe_live
    subscribe_monitors monitor_all monitor_group subscribe_checks
stop-start_service_example =
    stop-start_service Active (λ t w. w) (λ t w i a. a) options service refl (λ id w i a. a)
      (λ w. (w, refl, λ i a. a)) (4, 2 ∷ []) idle running (sub item ∷ []) provider none
      (6, 5 ∷ 4 ∷ 2 ∷ []) provider-Tracks refl refl refl refl refl refl
