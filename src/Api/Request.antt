-- ===== src/Api/Request.antt =====
-- v2/pkg/spike/request-handler.go: a request passes authentication, authorisation and the
-- validators before its handler runs.
pub mod Access
use spike_broker.Prelude.{
  ℕ, zero, suc, ◌+◌, ◌-◌, ◌*◌, ◌/◌, ◌%◌, ◌^◌, ◌≤◌, ◌<◌, ◌≡◌, refl, sym, ap, ◌∙◌, ◌≢◌, ◌↔◌, ◌⊎◌, inl,
  inr, Bool, true, false, not, ◌&&◌, ◌||◌, Option, none, some, List, [], ◌∷◌, ◌++◌, map, arith, ltb,
  leb, ◌==◌, if◌then◌else◌, ==_iff, Bool-cases, Option-cases, length, length-append, is_empty, drop,
  find, filter, drop_last, All, All-append, All-left, Text, codes, text_eq, text_eq_refl,
  text_eq_iff, text_eq_ne, Dict, lookup, insert, lookup-insert, contains,
}
use spike_broker.Rids.Verb
use spike_broker.Rids.Pattern.{Pattern, method, is_public, endpoint_name, endpoint_name_specific}
use spike_broker.Broker.Message.{
  ErrorMessage, TraceInfo, of_message, error_status_forbidden, error_status_unauthorized,
  error_text, internal_error, plain,
}
use spike_broker.Broker.Call.{Codec, Call, call_error, set_token, new_access}
use spike_broker.Go.{of_error, of_value, Go, ◌>>=◌, ◌>>◌, recovering, PanicValue, act, pure}

-- A function that works on a call or an access. It returns what it leaves in the access.
abbrev pub CallHandler : Type 0 → Type 0
CallHandler W = Call → Go W (Unit {0})

abbrev pub AccessHandler : Type 0 → Type 0
AccessHandler W = Call → Go W Call

-- `broker.Subscription`.
pub record Subscription (W : Type 0) : Type 0 where
  pub resource : Pattern
  pub handler : CallHandler W
  pub validators : List (AccessHandler W)

-- What a service supplies: the authenticator and the authorizer of `Options`, the JSON encoders,
-- the provider's `Reply`, and what `runtime.Caller` reports.
pub record Env (W : Type 0) : Type 0 where
  pub codec : Codec
  pub send : Text → Text → W → W
  pub caller : Option TraceInfo
  pub validate_token : Text → Go W (Text × Bool)
  pub has_permission : Call → Go W Bool
  pub log : Text → W → W

-- The loop over the validators, which stops at the first error that the access holds.
unfoldable pub run_validators :
    {W : Type 0} → List (AccessHandler W) → Call → Go W (Option ErrorMessage)
run_validators [] access = pure none
run_validators (v ∷ vs) access =
    let rest = run_validators vs in
    v access >>= λ a. elim a.err [ some e ↦ pure (some e) | none ↦ rest a ]

-- The error that the deferred function makes of a panic.
unfoldable pub panic_error : Pattern → PanicValue → ErrorMessage
panic_error p (of_error e) = internal_error (some e)
panic_error p (of_value v) =
    internal_error (some (plain (codes "request: " ++ (endpoint_name p ++ (codes ": " ++ v)))))

abbrev pub panic_text : PanicValue → Text
panic_text (of_error e) = error_text e
panic_text (of_value v) = v

-- How the first part of `handleRequest` ends: with an error to be sent, or with the call as it
-- goes on, which holds the processed token.
pub data Admission : Type 0 where
  refused : ErrorMessage → Admission
  admitted : Call → Admission

module _ {W : Type 0} (env : Env W) where
  abbrev pub send_error : Call → ErrorMessage → Go W (Unit {0})
  send_error m e = call_error env.codec env.send env.caller m (some (of_message e))

  -- The authorizer sees the call with the processed token.
  unfoldable pub check_permission : Call → Text × Bool → Go W Admission
  check_permission m (token, false) = pure (refused error_status_unauthorized)
  check_permission m (token, true) = env.has_permission (set_token token m) >>= λ allowed.
      pure (if allowed then admitted (set_token token m) else refused error_status_forbidden)

  -- The block "Authenticate and Authorize".
  unfoldable pub authorize : Pattern → Call → Go W Admission
  authorize p m =
      if not (text_eq (method p) Verb.internal) && not (is_public p)
      then env.validate_token m.token >>= check_permission m
      else pure (admitted m)

  -- The error of a validator is sent; otherwise the handler is called.
  abbrev pub on_validation : CallHandler W → Call → Option ErrorMessage → Go W (Unit {0})
  on_validation h m (some e) = send_error m e
  on_validation h m none = h m

  unfoldable pub validate_and_run : Subscription W → Call → Call → Go W (Unit {0})
  validate_and_run sub access m =
      run_validators sub.validators access >>= on_validation sub.handler m

  abbrev pub on_admission : Subscription W → Call → Call → Admission → Go W (Unit {0})
  on_admission sub m access (refused e) = send_error m e
  on_admission sub m access (admitted m') = validate_and_run sub access m'

  -- The body of `handleRequest` under its deferred function.
  unfoldable pub serve : Subscription W → Call → Call → Go W (Unit {0})
  serve sub m access = authorize sub.resource m >>= on_admission sub m access

  -- The deferred function.
  unfoldable pub on_panic : Pattern → Call → PanicValue → Go W (Unit {0})
  on_panic p m r =
      act (env.log (endpoint_name p ++ (codes " " ++ endpoint_name_specific p)))
      >> act (env.log (panic_text r))
      >> send_error m (panic_error p r)

  unfoldable pub handle_request : Subscription W → Call → Call → Go W (Unit {0})
  handle_request sub m access = recovering (on_panic sub.resource m) (serve sub m access)
