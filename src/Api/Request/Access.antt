-- ===== src/Api/Request/Access.antt =====
-- Access control of `handleRequest` (v2/pkg/spike/request-handler.go): when the handler runs, and
-- what is sent where it does not.
use mathlib.Core.Path.{subst, subst₂}
use spike_broker.Prelude.{
  ◌≡◌, refl, ap, ◌∙◌, ◌⊎◌, inl, inr, Bool, true, false, not, ◌&&◌, Option, none, some, List, [],
  ◌∷◌, arith, if◌then◌else◌, Bool-cases, Option-cases, is_empty, Text, text_eq, text_eq_iff,
}
use spike_broker.Rids.Verb
use spike_broker.Rids.Pattern.{Pattern, method, is_public}
use spike_broker.Broker.Message.{ErrorMessage, trace-as_message, of_message}
use spike_broker.Broker.Call.{Call, call_error, set_token, error, reply}
use spike_broker.Go.{
  >>=-eq-value, pure, Exit, value, panic, recovering, PanicValue, continue, settle,
}
use spike_broker.Api.Request.{
  Env, Subscription, CallHandler, AccessHandler, handle_request, serve, authorize, check_permission,
  validate_and_run, run_validators, on_panic, panic_error, Admission, refused, admitted, send_error,
  on_admission, on_validation,
}

module _ {W : Type 0} where
  -- Every validator leaves the access without an error.
  pub data Passes : List (AccessHandler W) → Call → W → W → Type 0 where
    done : {a : Call} {w : W} → Passes [] a w w
    next :
        {v : AccessHandler W} {vs : List (AccessHandler W)} {a b : Call} {w u w' : W}
        → v a w ≡ (value b, u)
        → b.err ≡ none
        → Passes vs b u w'
        → Passes (v ∷ vs) a w w'

  run_validators-Passes :
      (vs : List (AccessHandler W)) (a : Call) (w w' : W)
      → run_validators vs a w ≡ (value none, w')
      → Passes vs a w w'
  unfolding run_validators
  run_validators-Passes [] a w w' h = subst (λ x. Passes [] a w x) (ground arith) done
  run_validators-Passes (v ∷ vs) a w w' h =
      let (b, u, ran, rest) =
        >>=-eq-value (v a) (λ b. elim b.err [ some e ↦ pure (some e) | none ↦ run_validators vs b ])
          w h in
      elim (Option-cases b.err) [
        | inl fine ↦ next ran fine (run_validators-Passes vs b u w' (ground (arith, rest, fine)))
        | inr (e, failed) ↦ absurd (ground (arith, rest, failed))
      ]

module _ {W : Type 0} (env : Env W) where
  -- What a call is admitted by, from a state, with the state after: a public or an internal
  -- resource needs nothing, and any other a valid token and a permission for the call with the
  -- processed token.
  pub data Admits (p : Pattern) (m : Call) (w : W) : Call → W → Type 0 where
    internal : method p ≡ Verb.internal → Admits p m w m w
    public : is_public p ≡ true → Admits p m w m w
    granted :
        {token : Text} {v w' : W}
        → env.validate_token m.token w ≡ (value (token, true), v)
        → env.has_permission (set_token token m) v ≡ (value true, w')
        → Admits p m w (set_token token m) w'

  -- The handler is reached with the call `m'` in the state `w'`.
  pub record Reached (p : Pattern) (vs : List (AccessHandler W)) (m access : Call) (w : W)
      : Type 0 where
    pub call : Call
    pub between : W
    pub after : W
    pub admits : Admits p m w call between
    pub passes : Passes vs access between after

  check_permission-Admits :
      (p : Pattern) (m : Call) (w v w' : W) (r : Text × Bool) {m' : Call}
      → env.validate_token m.token w ≡ (value r, v)
      → check_permission env m r v ≡ (value (admitted m'), w')
      → Admits p m w m' w'
  unfolding check_permission
  check_permission-Admits p m w v w' (token, false) valid h = absurd (ground arith)
  check_permission-Admits p m w v w' (token, true) {m'} valid h =
      let allowed : env.has_permission (set_token token m) v ≡ (value true, w') = ground arith in
      let same : set_token token m ≡ m' = ground (arith, allowed) in
      subst (λ x. Admits p m w x w') same (granted valid allowed)

  authorize-Admits :
      (p : Pattern) (m : Call) (w w' : W) {m' : Call}
      → authorize env p m w ≡ (value (admitted m'), w')
      → Admits p m w m' w'
  unfolding authorize
  authorize-Admits p m w w' {m'} h =
      elim (Bool-cases (not (text_eq (method p) Verb.internal) && not (is_public p))) [
        | inl guarded ↦
            let (r, v, valid, rest) =
              >>=-eq-value (env.validate_token m.token) (check_permission env m) w
                (rw (guarded, authorize) at h) in
            check_permission-Admits p m w v w' r valid rest
        | inr free ↦
            let same : m ≡ m' = ground (arith, h, free) in
            let still : w ≡ w' = ground (arith, h, free) in
            subst₂ (λ x u. Admits p m w x u) same still (unguarded free)
      ]
    where
      unguarded :
          (not (text_eq (method p) Verb.internal) && not (is_public p)) ≡ false → Admits p m w m w
      unguarded free = elim (Bool-cases (is_public p)) [
        | inl yes_public ↦ public yes_public
        | inr private ↦ internal (ground (arith, text_eq_iff (method p) Verb.internal))
      ]

  -- Admission changes nothing of a call but its token.
  Admits-reply_str :
      (p : Pattern) {m m' : Call} {w w' : W} → Admits p m w m' w' → m'.reply_str ≡ m.reply_str
  Admits-reply_str p (internal h) = refl
  Admits-reply_str p (public h) = refl
  Admits-reply_str p (granted valid allowed) = refl

  -- The state after an error reply: the message goes to the reply endpoint of the call, if any.
  abbrev pub sent : Call → ErrorMessage → W → W
  sent m e w =
      if is_empty m.reply_str then w else env.send m.reply_str (env.codec.error_to_json e) w

  pub send_error_lem :
      (m : Call) (e : ErrorMessage) (w : W) → send_error env m e w ≡ (value tt, sent m e w)
  unfolding call_error error reply
  send_error_lem m e w = rw (trace-as_message env.caller (of_message e)) (ground arith)

  -- A panic is logged and answered with an internal error, and ends there.
  pub on_panic_lem :
      (p : Pattern) (m : Call) (r : PanicValue) (w : W)
      → (u : W) × (on_panic env p m r w ≡ (value tt, sent m (panic_error p r) u))
  unfolding on_panic
  on_panic_lem p m r w = (_, send_error_lem m (panic_error p r) _)

  module _ (p : Pattern) (vs : List (AccessHandler W)) (m access : Call) (w : W) where
    abbrev pub with_handler : CallHandler W → Subscription W
    with_handler h = record { resource = p; handler = h; validators = vs }

    -- The handler is not run: whatever it is, one error is sent.
    abbrev pub Denied : Type 0
    Denied =
        (e : ErrorMessage) × (u : W) × ((h : CallHandler W)
          → handle_request env (with_handler h) m access w ≡ (value tt, sent m e u))

    -- The handler is run with the admitted call, under the deferred function.
    abbrev pub Runs : Type 0
    Runs =
        (r : Reached p vs m access w) × ((h : CallHandler W)
          → handle_request env (with_handler h) m access w
            ≡ recovering (on_panic env p m) (h r.call) r.after)

    -- The body by the results of its two parts.
    serve_run :
        (h : CallHandler W) {m' : Call} {u : W} {r : Exit (Option ErrorMessage) × W}
        → authorize env p m w ≡ (value (admitted m'), u)
        → run_validators vs access u ≡ r
        → serve env (with_handler h) m access w ≡ continue (on_validation env h m') r
    unfolding serve validate_and_run
    serve_run h {m'} a v =
        ap (continue (on_admission env (with_handler h) m access)) a
        ∙ ap (continue (on_validation env h m')) v

    after_validators :
        (m' : Call) (u : W) (r : Exit (Option ErrorMessage) × W)
        → authorize env p m w ≡ (value (admitted m'), u)
        → run_validators vs access u ≡ r
        → m'.reply_str ≡ m.reply_str
        → Runs ⊎ Denied
    unfolding handle_request
    after_validators m' u (value none, v) a passed same = inl (
      record {
        call = m';
        between = u;
        after = v;
        admits = authorize-Admits p m w u a;
        passes = run_validators-Passes vs access u v passed;
      },
      λ h. ap (settle (on_panic env p m)) (serve_run h a passed),
    )
    after_validators m' u (value (some e), v) a failed same = inr (
      e,
      v,
      λ h. ap (settle (on_panic env p m)) (serve_run h a failed ∙ send_error_lem m' e v) ∙ rw same,
    )
    after_validators m' u (panic q, v) a failed same =
        let (x, logged) = on_panic_lem p m q v in
        inr
          (panic_error p q, x, λ h. ap (settle (on_panic env p m)) (serve_run h a failed) ∙ logged)

    after_authorize : (r : Exit Admission × W) → authorize env p m w ≡ r → Runs ⊎ Denied
    unfolding handle_request serve
    after_authorize (value (admitted m'), u) e =
        after_validators m' u (run_validators vs access u) e refl
          (Admits-reply_str p (authorize-Admits p m w u e))
    after_authorize (value (refused q), u) e = inr (
      q,
      u,
      λ h.
          ap
            (λ r.
              settle (on_panic env p m) (continue (on_admission env (with_handler h) m access) r))
            e
          ∙ ap (settle (on_panic env p m)) (send_error_lem m q u),
    )
    after_authorize (panic q, u) e =
        let (x, logged) = on_panic_lem p m q u in
        inr (
          panic_error p q,
          x,
          λ h.
              ap
                (λ r.
                  settle (on_panic env p m)
                    (continue (on_admission env (with_handler h) m access) r))
                e
              ∙ logged,
        )

    -- Either the call is admitted, every validator passes, and the handler is run with the
    -- admitted call; or the handler has no influence, and the requester is sent one error.
    pub handle_request-decides : Runs ⊎ Denied
    handle_request-decides = after_authorize (authorize env p m w) refl

  settle-value :
      (p : Pattern) (m : Call) (r : Exit (Unit {0}) × W)
      → (settle (on_panic env p m) r).0 ≡ value tt
  settle-value p m (value a, u) = refl
  settle-value p m (panic q, u) = ap (λ r. r.0) (on_panic_lem p m q u).1

  -- No panic of the authenticator, the authorizer, a validator or the handler leaves a request.
  pub handle_request-value :
      (sub : Subscription W) (m access : Call) (w : W)
      → (handle_request env sub m access w).0 ≡ value tt
  unfolding handle_request
  handle_request-value sub m access w = settle-value sub.resource m (serve env sub m access w)
