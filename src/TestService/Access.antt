-- ===== src/TestService/Access.antt =====
-- How a test of access ends (v2/pkg/spike/test-request-handler.go).
pub mod Decided
use spike_broker.Prelude.{
  ℕ, suc, ◌≡◌, ◌≢◌, Bool, true, false, Option, none, some, List, [], ◌∷◌, ◌++◌, All, Text, codes,
}
use spike_broker.Prelude.Decimal.{ℤ, pos, negsuc}
use spike_broker.Rids.Pattern.{Pattern, is_public, endpoint_name}
use spike_broker.Broker.Message.{
  ErrorMessage, error_service_unavailable, error_status_unauthorized, error_status_forbidden,
}
use spike_broker.Api.Request.{panic_error, panic_text}
use spike_broker.Go.{Exit, PanicValue, value, panic}
use spike_broker.TestProvider.{TestCall, OnCall}
use spike_broker.TestService.{TestOptions, TestSubscription}

module _ {W : Type 0} where
  -- Of the handlers, the first that has the name of the pattern.
  pub data First (p : Pattern) : List (TestSubscription W) → TestSubscription W → Type 0 where
    here :
        {h : TestSubscription W} {hs : List (TestSubscription W)}
        → endpoint_name h.resource ≡ endpoint_name p
        → First p (h ∷ hs) h
    later :
        {g h : TestSubscription W} {hs : List (TestSubscription W)}
        → endpoint_name g.resource ≢ endpoint_name p
        → First p hs h
        → First p (g ∷ hs) h

  abbrev pub IsOther : Pattern → TestSubscription W → Type 0
  IsOther p h = endpoint_name h.resource ≢ endpoint_name p

  -- Every validator returns and leaves the access without an error.
  pub data Accepts : List (OnCall W (Unit {0})) → TestCall × W → TestCall × W → Type 0 where
    done : {s : TestCall × W} → Accepts [] s s
    next :
        {v : OnCall W (Unit {0})} {vs : List (OnCall W (Unit {0}))} {s t u : TestCall × W}
        → v s ≡ (value tt, t)
        → t.0.error ≡ none
        → Accepts vs t u
        → Accepts (v ∷ vs) s u

  -- The first validator that does not, with its number, counted from the given one, and what it
  -- comes to: it leaves an error, or panics.
  pub data Stops
      : ℕ
        → List (OnCall W (Unit {0}))
        → TestCall × W
        → ℕ
        → Exit ErrorMessage × (TestCall × W)
        → Type 0 where
    fails :
        {i : ℕ} {v : OnCall W (Unit {0})} {vs : List (OnCall W (Unit {0}))} {s t : TestCall × W}
        {e : ErrorMessage}
        → v s ≡ (value tt, t)
        → t.0.error ≡ some e
        → Stops i (v ∷ vs) s i (value e, t)
    panics :
        {i : ℕ} {v : OnCall W (Unit {0})} {vs : List (OnCall W (Unit {0}))} {s t : TestCall × W}
        {q : PanicValue}
        → v s ≡ (panic q, t)
        → Stops i (v ∷ vs) s i (panic q, t)
    after :
        {i j : ℕ} {v : OnCall W (Unit {0})} {vs : List (OnCall W (Unit {0}))} {s t : TestCall × W}
        {r : Exit ErrorMessage × (TestCall × W)}
        → v s ≡ (value tt, t)
        → t.0.error ≡ none
        → Stops (suc i) vs t j r
        → Stops i (v ∷ vs) s j r

  module _ (opts : TestOptions W) (p : Pattern) (on_ok : W → W) (on_err : ℤ → ErrorMessage → W → W)
      (m : TestCall) where
    -- A public pattern needs nothing, and any other a valid token, and a permission for the call
    -- with the processed token.
    pub data Admits (a : TestCall) (w : W) : W → Type 0 where
      public : is_public p ≡ true → Admits a w w
      allowed :
          {token : Text} {v w' : W}
          → is_public p ≡ false
          → opts.validate_token a.token w ≡ (value (token, true), v)
          → opts.has_permission (record m { token = token }) v ≡ (value true, w')
          → Admits a w w'

    -- The end by a panic: it is logged, and the access denied with it.
    abbrev pub panicked : PanicValue → TestCall × W → Exit (Unit {0}) × (TestCall × W)
    panicked q (a, w) = (
      value tt,
      (
        record a { error = some (panic_error p q) },
        opts.log (codes "nats: panic on handler: " ++ panic_text q) w,
      ),
    )

    -- The ways a test of access ends.
    pub data Ends (a : TestCall) (w : W) : Exit (Unit {0}) × (TestCall × W) → Type 0 where
      no_handler :
          All (IsOther p) opts.handlers
          → Ends a w (value tt, (record a { error = some error_service_unavailable }, w))
      token_refused :
          {h : TestSubscription W} {token : Text} {w' : W}
          → First p opts.handlers h
          → is_public p ≡ false
          → opts.validate_token a.token w ≡ (value (token, false), w')
          → Ends a w (value tt, (a, on_err (negsuc 0) error_status_unauthorized w'))
      token_panicked :
          {h : TestSubscription W} {q : PanicValue} {w' : W}
          → First p opts.handlers h
          → is_public p ≡ false
          → opts.validate_token a.token w ≡ (panic q, w')
          → Ends a w (panicked q (a, w'))
      permission_refused :
          {h : TestSubscription W} {token : Text} {v w' : W}
          → First p opts.handlers h
          → is_public p ≡ false
          → opts.validate_token a.token w ≡ (value (token, true), v)
          → opts.has_permission (record m { token = token }) v ≡ (value false, w')
          → Ends a w (value tt, (a, on_err (negsuc 1) error_status_forbidden w'))
      permission_panicked :
          {h : TestSubscription W} {token : Text} {v w' : W} {q : PanicValue}
          → First p opts.handlers h
          → is_public p ≡ false
          → opts.validate_token a.token w ≡ (value (token, true), v)
          → opts.has_permission (record m { token = token }) v ≡ (panic q, w')
          → Ends a w (panicked q (a, w'))
      refused :
          {h : TestSubscription W} {w' u : W} {b : TestCall} {j : ℕ} {e : ErrorMessage}
          → First p opts.handlers h
          → Admits a w w'
          → Stops 0 h.validators (a, w') j (value e, (b, u))
          → Ends a w (value tt, (b, on_err (pos j) e u))
      validator_panicked :
          {h : TestSubscription W} {w' : W} {j : ℕ} {q : PanicValue} {s : TestCall × W}
          → First p opts.handlers h
          → Admits a w w'
          → Stops 0 h.validators (a, w') j (panic q, s)
          → Ends a w (panicked q s)
      granted :
          {h : TestSubscription W} {w' u : W} {b : TestCall}
          → First p opts.handlers h
          → Admits a w w'
          → Accepts h.validators (a, w') (b, u)
          → Ends a w (value tt, (b, on_ok u))
