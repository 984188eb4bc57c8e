-- ===== src/TestService/Access/Decided.antt =====
-- `handleAccessForTest` of v2/pkg/spike/test-request-handler.go against the ways a test of access
-- ends.
use spike_broker.Prelude.{
  ℕ, suc, ◌≡◌, refl, ◌≢◌, Bool, true, false, Option, none, some, List, [], ◌∷◌, if◌then◌else◌, All,
  Text, text_eq, text_eq_iff,
}
use spike_broker.Prelude.Decimal.{ℤ, pos}
use spike_broker.Rids.Pattern.{Pattern, is_public, endpoint_name}
use spike_broker.Broker.Message.{ErrorMessage, of_message}
use spike_broker.Api.Request.{panic_error}
use spike_broker.Go.{Exit, value, panic, continue, pure, settle, act, ◌>>◌, ◌>>=◌, PanicValue}
use spike_broker.TestProvider.{
  TestCall, OnCall, test_access_denied, set_error, broker_error, no_callbacks, at_call, on_world,
}
use spike_broker.TestService.{
  Verdict, unhandled, failed, passed, TestOptions, TestSubscription, conclude, examine,
  handle_access_for_test, judge, on_permission, on_token, run_from, find_handler, logged,
}
use spike_broker.TestService.Access.{
  First, here, later, IsOther, Accepts, done, next, Stops, fails, panics, after, Admits, public,
  allowed, Ends, no_handler, token_refused, token_panicked, permission_refused, permission_panicked,
  refused, validator_panicked, granted,
}

module _ {W : Type 0} where
  -- The search for the handler.
  data Found (p : Pattern) (hs : List (TestSubscription W))
      : Option (TestSubscription W) → Type 0 where
    missing : All (IsOther p) hs → Found p hs none
    first : {h : TestSubscription W} → First p hs h → Found p hs (some h)

  Found-cons :
      (p : Pattern) (h : TestSubscription W) (hs : List (TestSubscription W))
      (o : Option (TestSubscription W))
      → endpoint_name h.resource ≢ endpoint_name p
      → Found p hs o
      → Found p (h ∷ hs) o
  Found-cons p h hs o ne (missing none_of) = missing (ne, none_of)
  Found-cons p h hs o ne (first f) = first (later ne f)

  Found-if :
      (p : Pattern) (h : TestSubscription W) (hs : List (TestSubscription W)) (b : Bool)
      → text_eq (endpoint_name h.resource) (endpoint_name p) ≡ b
      → Found p hs (find_handler p hs)
      → Found p (h ∷ hs) (if b then some h else find_handler p hs)
  Found-if p h hs true e rest = first (here ((text_eq_iff _ _).0 e))
  Found-if p h hs false e rest = Found-cons p h hs _ (λ same. cc ((text_eq_iff _ _).1 same, e)) rest

  find_handler-Found :
      (p : Pattern) (hs : List (TestSubscription W)) → Found p hs (find_handler p hs)
  unfolding find_handler
  find_handler-Found p [] = missing tt
  find_handler-Found p (h ∷ hs) = Found-if p h hs _ refl (find_handler-Found p hs)

  -- The loop over the validators.
  data Judged (i : ℕ) (vs : List (OnCall W (Unit {0}))) (s : TestCall × W)
      : Exit (Option (ℕ × ErrorMessage)) × (TestCall × W) → Type 0 where
    accepted : {t : TestCall × W} → Accepts vs s t → Judged i vs s (value none, t)
    stopped :
        {t : TestCall × W} {j : ℕ} {e : ErrorMessage}
        → Stops i vs s j (value e, t)
        → Judged i vs s (value (some (j, e)), t)
    broken :
        {t : TestCall × W} {j : ℕ} {q : PanicValue}
        → Stops i vs s j (panic q, t)
        → Judged i vs s (panic q, t)

  Judged-after :
      {i : ℕ} {v : OnCall W (Unit {0})} {vs : List (OnCall W (Unit {0}))} {s t : TestCall × W}
      {r : Exit (Option (ℕ × ErrorMessage)) × (TestCall × W)}
      → v s ≡ (value tt, t)
      → t.0.error ≡ none
      → Judged (suc i) vs t r
      → Judged i (v ∷ vs) s r
  Judged-after ran fine (accepted h) = accepted (next ran fine h)
  Judged-after ran fine (stopped h) = stopped (after ran fine h)
  Judged-after ran fine (broken h) = broken (after ran fine h)

  error-Judged :
      (i : ℕ) (v : OnCall W (Unit {0})) (vs : List (OnCall W (Unit {0}))) (s : TestCall × W)
      (a : TestCall) (w : W) (o : Option ErrorMessage)
      → v s ≡ (value tt, (a, w))
      → a.error ≡ o
      → Judged (suc i) vs (a, w) (run_from (suc i) vs (a, w))
      → Judged i (v ∷ vs) s (elim o as (λ x. Exit (Option (ℕ × ErrorMessage)) × (TestCall × W)) [
        | some e ↦ (value (some (i, e)), (a, w))
        | none ↦ run_from (suc i) vs (a, w)
      ])
  error-Judged i v vs s a w none ran h rest = Judged-after ran h rest
  error-Judged i v vs s a w (some e) ran h rest = stopped (fails ran h)

  validated-Judged :
      (i : ℕ) (v : OnCall W (Unit {0})) (vs : List (OnCall W (Unit {0}))) (s : TestCall × W)
      → ((t : TestCall × W) → Judged (suc i) vs t (run_from (suc i) vs t))
      → (r : Exit (Unit {0}) × (TestCall × W)) → v s ≡ r
      → Judged i (v ∷ vs) s (
          continue
            (λ u (a, w). elim a.error [
              | some e ↦ (value (some (i, e)), (a, w))
              | none ↦ run_from (suc i) vs (a, w)
            ])
            r)
  validated-Judged i v vs s rest (value u, (a, w)) ran =
      error-Judged i v vs s a w a.error ran refl (rest (a, w))
  validated-Judged i v vs s rest (panic q, t) ran = broken (panics ran)

  run_from-Judged :
      (i : ℕ) (vs : List (OnCall W (Unit {0}))) (s : TestCall × W) → Judged i vs s (run_from i vs s)
  unfolding run_from
  run_from-Judged i [] s = accepted done
  run_from-Judged i (v ∷ vs) s = validated-Judged i v vs s (run_from-Judged (suc i) vs) (v s) refl

  module _ (opts : TestOptions W) (p : Pattern) (on_ok : W → W) (on_err : ℤ → ErrorMessage → W → W)
      (m a : TestCall) (w : W) where
    -- How the function ends after the examination.
    abbrev ended : Exit Verdict × (TestCall × W) → Exit (Unit {0}) × (TestCall × W)
    ended r =
        settle
          (λ q.
            logged opts q
            >> test_access_denied no_callbacks (some (some (of_message (panic_error p q)))))
          (continue (conclude opts (act on_ok) (λ i e. act (on_err i e))) r)

    abbrev EndsWith : Exit Verdict × (TestCall × W) → Type 0
    EndsWith r = Ends opts p on_ok on_err m a w (ended r)

    module _ (h : TestSubscription W) (f : First p opts.handlers h) where
      Judged-Ends :
          (w' : W) (r : Exit (Option (ℕ × ErrorMessage)) × (TestCall × W))
          → Admits opts p on_ok on_err m a w w'
          → Judged 0 h.validators (a, w') r
          → EndsWith (
              continue
                (λ r. elim r [ none ↦ pure passed | some (i, e) ↦ pure (failed (pos i) e) ])
                r)
      unfolding conclude test_access_denied set_error broker_error
      Judged-Ends w' r adm (accepted ok) = granted f adm ok
      Judged-Ends w' r adm (stopped st) = refused f adm st
      Judged-Ends w' r adm (broken st) = validator_panicked f adm st

      judge-Ends : (w' : W) → Admits opts p on_ok on_err m a w w' → EndsWith (judge opts h (a, w'))
      judge-Ends w' adm = Judged-Ends w' _ adm (run_from-Judged 0 h.validators (a, w'))

      permission-Ends :
          (token : Text) (v : W) (r : Exit Bool × W)
          → is_public p ≡ false
          → opts.validate_token a.token w ≡ (value (token, true), v)
          → opts.has_permission (record m { token = token }) v ≡ r
          → EndsWith (continue (on_permission opts h) (at_call a r))
      unfolding conclude test_access_denied set_error broker_error
      permission-Ends token v (value true, w') private valid asked =
          judge-Ends w' (allowed private valid asked)
      permission-Ends token v (value false, w') private valid asked =
          permission_refused f private valid asked
      permission-Ends token v (panic q, w') private valid asked =
          permission_panicked f private valid asked

      token-Ends :
          (r : Exit (Text × Bool) × W)
          → is_public p ≡ false
          → opts.validate_token a.token w ≡ r
          → EndsWith (continue (on_token opts h m) (at_call a r))
      unfolding conclude test_access_denied set_error broker_error
      token-Ends (value (token, true), v) private asked =
          permission-Ends token v _ private asked refl
      token-Ends (value (token, false), v) private asked = token_refused f private asked
      token-Ends (panic q, v) private asked = token_panicked f private asked

      public-Ends :
          (b : Bool)
          → is_public p ≡ b
          → EndsWith (
              if b
              then judge opts h (a, w)
              else (on_world (opts.validate_token a.token) >>= on_token opts h m) (a, w))
      public-Ends true free = judge-Ends w (public free)
      public-Ends false private = token-Ends _ private refl

    found-Ends :
        (o : Option (TestSubscription W))
        → Found p opts.handlers o
        → EndsWith (elim o as (λ x. Exit Verdict × (TestCall × W)) [
          | none ↦ (value unhandled, (a, w))
          | some h ↦
              if is_public p
              then judge opts h (a, w)
              else (on_world (opts.validate_token a.token) >>= on_token opts h m) (a, w)
        ])
    unfolding conclude test_access_denied set_error broker_error
    found-Ends o (missing none_of) = no_handler none_of
    found-Ends o (first {h} f) = public-Ends h f (is_public p) refl

    -- A test of access ends without a panic, and in one of these ways. No handler has the
    -- pattern's name, and the access is left with the error of a missing service. The pattern is
    -- not public, and `handleErr` is called with -1 since the token is refused, or with -2 since
    -- the permission is. Of the first handler's validators the first one to leave an error has
    -- `handleErr` called with its index and that error, and none after it is run. All accept, and
    -- `handleOk` is called. One of these calls panics, and the access is left with the error of
    -- the panic, which is logged. `handleOk` and `handleErr` do not panic.
    pub handle_access_for_test-Ends :
        Ends opts p on_ok on_err m a w
          (handle_access_for_test opts p m (act on_ok) (λ i e. act (on_err i e)) (a, w))
    unfolding handle_access_for_test examine
    handle_access_for_test-Ends =
        found-Ends (find_handler p opts.handlers) (find_handler-Found p opts.handlers)
