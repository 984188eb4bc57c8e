-- ===== src/V1/Route/Answers.antt =====
-- What the service `route` (pkg/route/route-service.go) answers to the questions of the handlers of
-- version 1 (pkg/service/providers/nats/nats-provider.go).
use spike_broker.Prelude.{
  ◌≡◌, refl, ap, ◌∙◌, ◌≢◌, ◌⊎◌, inl, inr, Bool, true, false, Option, none, some, List, [], ◌∷◌,
  arith, Text, text_eq, text_eq_refl,
}
use spike_broker.Rids.Pattern.{json}
use spike_broker.Go.{Go, value}
use spike_broker.V1.Rids.{
  Pattern, endpoint_name, validate_token, user_have_permission, pattern_with, new_method, bind_each,
}
use spike_broker.V1.Auth.{AuthRid}
use spike_broker.V1.Request.{
  CallRequest, ErrorRequest, Codec, ok, success_with, error_status_unauthorized,
  error_status_forbidden, with_text, answer, error_request, read_answer, send_error,
}
use spike_broker.V1.Handler.{request, prepared, unmarshal, by_answer}
use spike_broker.V1.Handler.Open.{handle_open}
use spike_broker.V1.Route.{
  TokenCodec, route_raw, on_validate_token, inbox, Boxed, at_handler, delivered, no_requests, post,
  boxed_auths, on_user_have_permission,
}

-- What encoding/json keeps: a call is read back, as `arrives` says; a success keeps its code, and its
-- data if that is a token; and the two refusals keep their codes and messages.
pub record IsFaithful (c : Codec) (tokens : TokenCodec) (arrives : CallRequest → CallRequest)
    : Type 0 where
  pub sent : (m : CallRequest) → c.call_to_json m ≢ []
  pub read : (m : CallRequest) → c.call_from_json (c.call_to_json m) ≡ some (arrives m)
  pub marshalled :
      (t : Text) → c.any_to_json (json (tokens.token_to_json t)) ≡ some (tokens.token_to_json t)
  pub success : (s : Text) → (c.error_from_json (c.error_to_json (success_with s))).code ≡ 200
  pub token :
      (t : Text)
      → (c.error_from_json (c.error_to_json (success_with (tokens.token_to_json t)))).content
        ≡ tokens.token_to_json t
  pub refusal :
      (e : ErrorRequest)
      → (e ≡ error_status_unauthorized) ⊎ (e ≡ error_status_forbidden)
      → ((c.error_from_json (c.error_to_json (with_text e.error e))).code ≡ e.code)
        × ((c.error_from_json (c.error_to_json (with_text e.error e))).message ≡ e.message)

-- The functions of the application return.
pub record Returns {W : Type 0} (auth : AuthRid W) : Type 0 where
  pub validates :
      (t : Text) (w : W)
      → (processed : Text) × (fine : Bool) × (v : W) × (auth.auth.validate_token t w
          ≡ (value (processed, fine), v))
  pub permits :
      (m : CallRequest) (w : W)
      → (fine : Bool) × (v : W) × (auth.auth.user_have_permission m w ≡ (value fine, v))

names-differ : text_eq (endpoint_name user_have_permission) (endpoint_name validate_token) ≡ false
unfolding text_eq endpoint_name pattern_with new_method bind_each
names-differ = refl

module _ {W : Type 0} (c : Codec) (tokens : TokenCodec) (arrives : CallRequest → CallRequest)
    (auth : AuthRid W) (auths : List (AuthRid W)) (faithful : IsFaithful c tokens arrives) where
  abbrev pub raw :
      Text → Text → ErrorRequest × W → (Option ErrorRequest × Text) × (ErrorRequest × W)
  raw = route_raw c tokens (auth ∷ auths)

  -- What a handler of the service `route` gets of a call.
  abbrev pub arrived : CallRequest → CallRequest
  arrived m = record (arrives m) { reply = inbox }

  unmarshal-arrived : (m : CallRequest) → unmarshal c (c.call_to_json m) inbox ≡ some (arrived m)
  unfolding unmarshal
  unmarshal-arrived m = ground (arith, faithful.sent m, faithful.read m)

  at_handler-answered :
      (p : Pattern) (hc : CallRequest → Go (Boxed W) (Unit {0})) (m : CallRequest)
      (g : ErrorRequest) (w v : W) (s : Text)
      → p.authenticated ≡ false
      → hc (arrived m) (none, w) ≡ (value tt, (some s, v))
      → at_handler c tokens (auth ∷ auths) p hc (c.call_to_json m) (g, w) ≡ ((none, s), (g, v))
  at_handler-answered p hc m g w v s open_to_all h = ap delivered (
      handle_open c (no_requests c tokens (auth ∷ auths)) post p hc (c.call_to_json m) inbox
        (arrived m) g (none, w) (some s, v) open_to_all (unmarshal-arrived m) h)

  pub token_valid :
      (m : CallRequest) (processed : Text) (w v : W)
      → auth.auth.validate_token (arrives m).token w ≡ (value (processed, true), v)
      → on_validate_token c tokens post (boxed_auths (auth ∷ auths)) (arrived m) (none, w)
        ≡ (value tt, (some (c.error_to_json (success_with (tokens.token_to_json processed))), v))
  unfolding on_validate_token ok answer
  token_valid m processed w v h = ground (arith, h, faithful.marshalled processed)

  pub token_invalid :
      (m : CallRequest) (processed : Text) (w v : W)
      → auth.auth.validate_token (arrives m).token w ≡ (value (processed, false), v)
      → on_validate_token c tokens post (boxed_auths (auth ∷ auths)) (arrived m) (none, w) ≡ (
        value tt,
        (
          some (
              c.error_to_json
                (with_text error_status_unauthorized.error error_status_unauthorized)),
          v,
        ),
      )
  unfolding on_validate_token error_request send_error
  token_invalid m processed w v h = ground (arith, h)

  pub permission_given :
      (m : CallRequest) (w v : W)
      → auth.auth.user_have_permission (arrived m) w ≡ (value true, v)
      → on_user_have_permission c tokens post (boxed_auths (auth ∷ auths)) (arrived m) (none, w)
        ≡ (value tt, (some (c.error_to_json (success_with [])), v))
  unfolding on_user_have_permission ok answer
  permission_given m w v h = ground (arith, h)

  pub permission_refused :
      (m : CallRequest) (w v : W)
      → auth.auth.user_have_permission (arrived m) w ≡ (value false, v)
      → on_user_have_permission c tokens post (boxed_auths (auth ∷ auths)) (arrived m) (none, w) ≡ (
        value tt,
        (some (c.error_to_json (with_text error_status_forbidden.error error_status_forbidden)), v),
      )
  unfolding on_user_have_permission error_request send_error
  permission_refused m w v h = ground (arith, h)

  pub read_success :
      (s : Text)
      → read_answer c (c.error_to_json (success_with s))
        ≡ inr (c.error_from_json (c.error_to_json (success_with s))).content
  unfolding read_answer
  read_success s = ground (arith, faithful.success s)

  pub read_refusal :
      (e : ErrorRequest)
      → (e ≡ error_status_unauthorized) ⊎ (e ≡ error_status_forbidden)
      → read_answer c (c.error_to_json (with_text e.error e))
        ≡ inl (c.error_from_json (c.error_to_json (with_text e.error e)))
  unfolding read_answer
  read_refusal e (inl h) = ground (
    arith,
    faithful.refusal e (inl h),
    ap (λ (x : ErrorRequest). x.code) h,
    ap (λ (x : ErrorRequest). x.message) h,
  )
  read_refusal e (inr h) = ground (
    arith,
    faithful.refusal e (inr h),
    ap (λ (x : ErrorRequest). x.code) h,
    ap (λ (x : ErrorRequest). x.message) h,
  )

  -- A request to a handler of the service, when that returns with an answer.
  pub request-answered :
      (p : Pattern) (hc : CallRequest → Go (Boxed W) (Unit {0})) (m : CallRequest) (t : Text)
      (g : ErrorRequest) (w v : W) (s : Text)
      → p.authenticated ≡ false
      → raw (endpoint_name p) (c.call_to_json (prepared p m t)) (g, w)
        ≡ at_handler c tokens (auth ∷ auths) p hc (c.call_to_json (prepared p m t)) (g, w)
      → hc (arrived (prepared p m t)) (none, w) ≡ (value tt, (some s, v))
      → request c raw p m t (g, w) ≡ (value (read_answer c s), (g, v))
  unfolding request
  request-answered p hc m t g w v s open_to_all routed returns =
      ap (λ (r : (Option ErrorRequest × Text) × (ErrorRequest × W)). (value (by_answer c r.0), r.1))
        (routed ∙ at_handler-answered p hc (prepared p m t) g w v s open_to_all returns)

  pub routed_token :
      (content : Text) (s : ErrorRequest × W)
      → raw (endpoint_name validate_token) content s
        ≡ at_handler c tokens
            (auth ∷ auths)
            validate_token
            (on_validate_token c tokens post (boxed_auths (auth ∷ auths)))
            content
            s
  unfolding route_raw
  routed_token content s = rw (text_eq_refl (endpoint_name validate_token)) refl

  pub routed_permission :
      (content : Text) (s : ErrorRequest × W)
      → raw (endpoint_name user_have_permission) content s
        ≡ at_handler c tokens
            (auth ∷ auths)
            user_have_permission
            (on_user_have_permission c tokens post (boxed_auths (auth ∷ auths)))
            content
            s
  unfolding route_raw
  routed_permission content s =
      rw (names-differ, text_eq_refl (endpoint_name user_have_permission)) refl
