-- ===== src/V1/Route/Checks.antt =====
-- Authorization in version 1 from end to end: the handler of a service
-- (pkg/service/providers/nats/nats-provider.go) asks the service `route`
-- (pkg/route/route-service.go), which asks the application.
use spike_broker.Prelude.{
  ◌≡◌, refl, sym, ap, ◌∙◌, inl, inr, Bool, true, false, Option, some, List, [], ◌∷◌, arith, Text,
}
use spike_broker.Go.{value}
use spike_broker.V1.Rids.{pattern_with, Pattern, validate_token, user_have_permission}
use spike_broker.V1.Auth.{AuthRid}
use spike_broker.V1.Request.{
  CallRequest, ErrorRequest, Codec, empty_request, success_with, with_text, error_status_forbidden,
  error_status_unauthorized,
}
use spike_broker.V1.Handler.{request, prepared, permission_request, authorize}
use spike_broker.V1.Handler.Gate.{Authorizes, unauthenticated, granted, authorize-Authorizes}
use spike_broker.V1.Route.{
  TokenCodec, on_validate_token, on_user_have_permission, post, boxed_auths,
}
use spike_broker.V1.Route.Answers.{
  raw, IsFaithful, Returns, arrived, request-answered, routed_token, routed_permission, token_valid,
  permission_given, read_success, permission_refused, token_invalid, read_refusal,
}

module _ {W : Type 0} (c : Codec) (tokens : TokenCodec) (arrives : CallRequest → CallRequest)
    (auth : AuthRid W) (auths : List (AuthRid W)) (faithful : IsFaithful c tokens arrives)
    (returns : Returns auth) where
  abbrev route : Text → Text → ErrorRequest × W → (Option ErrorRequest × Text) × (ErrorRequest × W)
  route = raw c tokens arrives auth auths faithful

  -- The token that reaches the authenticator, and the call that reaches the authorizer.
  abbrev pub asked_token : Text → Text
  asked_token t = (arrives (prepared validate_token empty_request t)).token

  abbrev pub asked_call : CallRequest → Text → CallRequest
  asked_call m t = arrived c tokens arrives auth auths faithful (prepared user_have_permission m t)

  token-answered :
      (t processed content : Text) (fine : Bool) (g : ErrorRequest) (w v : W) (x : ErrorRequest × W)
      → auth.auth.validate_token (asked_token t) w ≡ (value (processed, fine), v)
      → request c route validate_token empty_request t (g, w) ≡ (value (inr content), x)
      → (fine ≡ true) × (content ≡ tokens.token_to_json processed) × (x ≡ (g, v))
  unfolding pattern_with
  token-answered t processed content true g w v x asked h =
      let m = prepared validate_token empty_request t in
      let s = c.error_to_json (success_with (tokens.token_to_json processed)) in
      let e =
        request-answered c tokens arrives auth auths faithful validate_token
          (on_validate_token c tokens post (boxed_auths (auth ∷ auths))) empty_request t g w v s
          refl (routed_token c tokens arrives auth auths faithful (c.call_to_json m) (g, w))
          (token_valid c tokens arrives auth auths faithful m processed w v asked) in
      let same = sym e ∙ h in
      let got =
        read_success c tokens arrives auth auths faithful (tokens.token_to_json processed) in
      let kept = faithful.token processed in
      (refl, ground (arith, same, got, kept), ground (arith, same))
  token-answered t processed content false g w v x asked h =
      let m = prepared validate_token empty_request t in
      let s =
        c.error_to_json (with_text error_status_unauthorized.error error_status_unauthorized) in
      let e =
        request-answered c tokens arrives auth auths faithful validate_token
          (on_validate_token c tokens post (boxed_auths (auth ∷ auths))) empty_request t g w v s
          refl (routed_token c tokens arrives auth auths faithful (c.call_to_json m) (g, w))
          (token_invalid c tokens arrives auth auths faithful m processed w v asked) in
      let got =
        read_refusal c tokens arrives auth auths faithful error_status_unauthorized (inl refl) in
      absurd (ground (arith, sym e ∙ h, got))

  permission-answered :
      (m : CallRequest) (t content : Text) (fine : Bool) (g : ErrorRequest) (w v : W)
      (x : ErrorRequest × W)
      → auth.auth.user_have_permission (asked_call m t) w ≡ (value fine, v)
      → request c route user_have_permission m t (g, w) ≡ (value (inr content), x)
      → (fine ≡ true) × (x ≡ (g, v))
  unfolding pattern_with
  permission-answered m t content true g w v x asked h =
      let n = prepared user_have_permission m t in
      let e =
        request-answered c tokens arrives auth auths faithful user_have_permission
          (on_user_have_permission c tokens post (boxed_auths (auth ∷ auths))) m t g w v
          (c.error_to_json (success_with [])) refl
          (routed_permission c tokens arrives auth auths faithful (c.call_to_json n) (g, w))
          (permission_given c tokens arrives auth auths faithful n w v asked) in
      (refl, ground (arith, sym e ∙ h))
  permission-answered m t content false g w v x asked h =
      let n = prepared user_have_permission m t in
      let s = c.error_to_json (with_text error_status_forbidden.error error_status_forbidden) in
      let e =
        request-answered c tokens arrives auth auths faithful user_have_permission
          (on_user_have_permission c tokens post (boxed_auths (auth ∷ auths))) m t g w v s refl
          (routed_permission c tokens arrives auth auths faithful (c.call_to_json n) (g, w))
          (permission_refused c tokens arrives auth auths faithful n w v asked) in
      let got =
        read_refusal c tokens arrives auth auths faithful error_status_forbidden (inr refl) in
      absurd (ground (arith, sym e ∙ h, got))

  -- The application has said yes twice: to the token, and to the call with the processed one.
  pub record Approved (p : Pattern) (m : CallRequest) (w : W) (k : CallRequest) (v : W)
      : Type 0 where
    pub processed : Text
    pub token : Text
    pub between : W
    pub valid :
        auth.auth.validate_token (asked_token m.token) w ≡ (value (processed, true), between)
    pub carried : c.token_from_json (tokens.token_to_json processed) ≡ some token
    pub permitted :
        auth.auth.user_have_permission
          (asked_call (permission_request c p (record m { token = token })) token)
          between
        ≡ (value true, v)
    pub goes_on : k ≡ record m { token = token }

  approved :
      (p : Pattern) (m k : CallRequest) (g : ErrorRequest) (w : W) (x : ErrorRequest × W)
      → p.authenticated ≡ true
      → Authorizes c route p m (g, w) k x
      → Approved p m w k x.1 × (x.0 ≡ g)
  approved p m _ g w _ needed (unauthenticated h) = absurd (ground (arith, h, needed))
  approved p m _ g w x needed
        (granted {content} {token} {allowed} {u} sent valid carried permitted) =
      let (processed, fine, b, asked) = returns.validates (asked_token m.token) w in
      let (yes_1, same, at_b) = token-answered m.token processed content fine g w b u asked valid in
      let n = permission_request c p (record m { token = token }) in
      let (fine', e, asked') = returns.permits (asked_call n token) b in
      let (yes_2, at_e) = permission-answered n token allowed fine' g b e x asked' (
        ap (λ (y : ErrorRequest × W). request c route user_have_permission n token y) (sym at_b)
        ∙ permitted) in
      (
        record {
          processed = processed;
          token = token;
          between = b;
          valid = asked ∙ ap (λ (f : Bool). (value (processed, f), b)) yes_1;
          carried = ap c.token_from_json (sym same) ∙ carried;
          permitted =
              asked'
              ∙ ap (λ (f : Bool). (value f, e)) yes_2
              ∙ ap (λ (y : ErrorRequest × W). (value true, y.1)) (sym at_e);
          goes_on = refl;
        },
        ap (λ (y : ErrorRequest × W). y.0) at_e,
      )

  -- A call to an endpoint with authentication goes on only if the application's authenticator has
  -- accepted its token, and its authorizer the permission, both asked through the service `route`.
  -- Every message is delivered, the encoders are faithful, and the application's functions return.
  pub authorize-Approved :
      (p : Pattern) (m k : CallRequest) (g : ErrorRequest) (w : W) (x : ErrorRequest × W)
      → p.authenticated ≡ true
      → authorize c route p m (g, w) ≡ (value (inr k), x)
      → Approved p m w k x.1 × (x.0 ≡ g)
  authorize-Approved p m k g w x needed h =
      approved p m k g w x needed (authorize-Authorizes c route p m k (g, w) x h)
