-- ===== src/V1/Middleware/Guarded.antt =====
-- What a REST request has passed when the next handler gets it
-- (pkg/route/handlers/auth-middleware.go).
use mathlib.Core.Path.{subst₂}
use spike_broker.Prelude.{
  ◌≡◌, inl, inr, Bool, true, false, Option, none, some, List, [], ◌∷◌, arith, Bool-cases, is_empty,
  Text, codes,
}
use spike_broker.Text.{split, has_prefix}
use spike_broker.Go.{value, >>=-eq-value, pure}
use spike_broker.V1.Auth.{AuthRid}
use spike_broker.V1.Middleware.{
  RestRequest, next, is_for, is_exempt, pass_service, auth_middleware, by_validation,
}
use spike_broker.V1.Middleware.Exempt.{AnyOf, Exempts, is_exempt-AnyOf}

module _ {W : Type 0} (r : RestRequest) where
  -- The first service that the path names decides: an endpoint of it exempts the request, or its
  -- authenticator accepts the bearer's token, and the header holds the processed one. A request of a
  -- WebSocket, or for no service, passes with the header that it came with.
  pub data Allowed : List (AuthRid W) → W → Option Text → W → Type 0 where
    unserved : {w : W} → Allowed [] w none w
    websocket :
        {auth : AuthRid W} {auths : List (AuthRid W)} {w : W}
        → has_prefix r.path (codes "/ws") ≡ true
        → Allowed (auth ∷ auths) w none w
    exempt :
        {auth : AuthRid W} {auths : List (AuthRid W)} {w : W}
        → is_for auth.service (split b'/' r.path) ≡ true
        → AnyOf (Exempts r) auth.patterns
        → Allowed (auth ∷ auths) w (some r.bearer) w
    valid :
        {auth : AuthRid W} {auths : List (AuthRid W)} {w v : W} {processed : Text}
        → is_for auth.service (split b'/' r.path) ≡ true
        → is_empty r.bearer ≡ false
        → auth.auth.validate_token r.bearer w ≡ (value (processed, true), v)
        → Allowed (auth ∷ auths) w (some processed) v
    other :
        {auth : AuthRid W} {auths : List (AuthRid W)} {w v : W} {t : Option Text}
        → is_for auth.service (split b'/' r.path) ≡ false
        → Allowed auths w t v
        → Allowed (auth ∷ auths) w t v

  validated-Allowed :
      (auth : AuthRid W) (auths : List (AuthRid W)) (t : Option Text) (w u v : W) (processed : Text)
      (ok : Bool)
      → is_for auth.service (split b'/' r.path) ≡ true
      → is_empty r.bearer ≡ false
      → auth.auth.validate_token r.bearer w ≡ (value (processed, ok), u)
      → pure (by_validation (processed, ok)) u ≡ (value (next t), v)
      → Allowed (auth ∷ auths) w t v
  validated-Allowed auth auths t w u v processed false mine full asked h =
      absurd (ground (arith, h))
  validated-Allowed auth auths t w u v processed true mine full asked h =
      subst₂ (λ o x. Allowed (auth ∷ auths) w o x) (ground (arith, h)) (ground (arith, h))
        (valid mine full asked)

  service-Allowed :
      (auth : AuthRid W) (auths : List (AuthRid W)) (t : Option Text) (w v : W)
      → is_for auth.service (split b'/' r.path) ≡ true
      → pass_service r auth w ≡ (value (next t), v)
      → Allowed (auth ∷ auths) w t v
  unfolding pass_service
  service-Allowed auth auths t w v mine h = elim (Bool-cases (is_exempt r auth.patterns)) [
    | inl free ↦
        subst₂ (λ o x. Allowed (auth ∷ auths) w o x) (ground (arith, h, free))
          (ground (arith, h, free)) (exempt mine ((is_exempt-AnyOf r auth.patterns).0 free))
    | inr bound ↦ elim (Bool-cases (is_empty r.bearer)) [
      | inl bare ↦ absurd (ground (arith, h, bound, bare))
      | inr full ↦
          let ((processed, ok), u, asked, given) =
            >>=-eq-value (auth.auth.validate_token r.bearer) (λ t. pure (by_validation t)) w
              (rw (bound, full) at h) in
          validated-Allowed auth auths t w u v processed ok mine full asked given
    ]
  ]

  -- The next handler gets a request only as `Allowed` says: of a path that names a service, only with
  -- an exemption or a valid token.
  pub auth_middleware-Allowed :
      (auths : List (AuthRid W)) (t : Option Text) (w v : W)
      → auth_middleware auths r w ≡ (value (next t), v)
      → Allowed auths w t v
  unfolding auth_middleware
  auth_middleware-Allowed [] t w v h =
      subst₂ (λ o x. Allowed [] w o x) (ground (arith, h)) (ground (arith, h)) unserved
  auth_middleware-Allowed (auth ∷ auths) t w v h =
      elim (Bool-cases (has_prefix r.path (codes "/ws"))) [
        | inl ws ↦
            subst₂ (λ o x. Allowed (auth ∷ auths) w o x) (ground (arith, h, ws))
              (ground (arith, h, ws)) (websocket ws)
        | inr rest ↦ elim (Bool-cases (is_for auth.service (split b'/' r.path))) [
          | inl mine ↦ service-Allowed auth auths t w v mine (rw (rest, mine) at h)
          | inr not_mine ↦
              other not_mine (auth_middleware-Allowed auths t w v (rw (rest, not_mine) at h))
        ]
      ]
