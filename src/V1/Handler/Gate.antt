-- ===== src/V1/Handler/Gate.antt =====
-- What a message has passed before the handler of a service of version 1 sees it
-- (pkg/service/providers/nats/nats-provider.go).
use mathlib.Core.Path.{subst₂}
use spike_broker.Prelude.{
  ◌≡◌, sym, ap, ◌∙◌, ◌⊎◌, inl, inr, true, false, Option, some, List, [], ◌∷◌, arith, Bool-cases,
  Option-cases, is_empty, Text,
}
use spike_broker.Go.{value, >>=-eq-value, ◌>>=◌}
use spike_broker.V1.Rids.{Pattern, validate_token, user_have_permission}
use spike_broker.V1.Request.{CallRequest, AccessRequest, ErrorRequest, Codec, empty_request}
use spike_broker.V1.Handler.{
  AccessPart, decide, authorize, run_access, refuses, Result, by_access, request, by_authorization,
  with_processed, permission_request, by_permission, by_token,
}

module _ {W : Type 0} (p : Pattern) where
  -- Every access function has been asked in turn, and none refuses.
  pub data Passes : List (AccessPart W) → CallRequest → W → CallRequest → W → Type 0 where
    done : {m : CallRequest} {w : W} → Passes [] m w m w
    next :
        {part : AccessPart W} {parts : List (AccessPart W)} {m n k : CallRequest}
        {a : AccessRequest} {w u v : W}
        → part m w ≡ (value (n, a), u)
        → refuses p a ≡ false
        → Passes parts n u k v
        → Passes (part ∷ parts) m w k v

  run_access-Passes :
      (parts : List (AccessPart W)) (m k : CallRequest) (w v : W)
      → run_access p parts m w ≡ (value (inr k), v)
      → Passes parts m w k v
  unfolding run_access
  run_access-Passes [] m k w v h =
      subst₂ (λ n x. Passes [] m w n x) (ground arith) (ground arith) done
  run_access-Passes (part ∷ parts) m k w v h =
      let ((n, a), u, asked, rest) = >>=-eq-value (part m) (by_access p (run_access p parts)) w h in
      elim (Bool-cases (refuses p a)) [
        | inl refused ↦ absurd (ground (arith, rest, refused))
        | inr fine ↦ next asked fine (run_access-Passes parts n k u v (ground (arith, rest, fine)))
      ]

module _ {W : Type 0} (c : Codec) (raw : Text → Text → W → (Option ErrorRequest × Text) × W) where
  -- An endpoint without authentication asks nothing. Any other asks the service `route` for the
  -- processed token of a call that has one, and then, with that, for the permission.
  pub data Authorizes (p : Pattern) (m : CallRequest) (w : W) : CallRequest → W → Type 0 where
    unauthenticated : p.authenticated ≡ false → Authorizes p m w m w
    granted :
        {content token allowed : Text} {u v : W}
        → is_empty m.token ≡ false
        → request c raw validate_token empty_request m.token w ≡ (value (inr content), u)
        → c.token_from_json content ≡ some token
        → request c raw user_have_permission
            (permission_request c p (record m { token = token }))
            token
            u
          ≡ (value (inr allowed), v)
        → Authorizes p m w (record m { token = token }) v

  permitted-Authorizes :
      (p : Pattern) (m k : CallRequest) (content token : Text) (w u v : W)
      → is_empty m.token ≡ false
      → request c raw validate_token empty_request m.token w ≡ (value (inr content), u)
      → c.token_from_json content ≡ some token
      → with_processed c raw p m (some token) u ≡ (value (inr k), v)
      → Authorizes p m w k v
  permitted-Authorizes p m k content token w u v some_token valid processed h =
      let (r, x, asked, rest) =
        >>=-eq-value
          (request c raw user_have_permission (permission_request c p (record m { token = token }))
            token)
          (by_permission c raw (record m { token = token })) u h in
      go r x asked rest
    where
      go :
          (r : ErrorRequest ⊎ Text) (x : W)
          → request c raw user_have_permission
              (permission_request c p (record m { token = token }))
              token
              u
            ≡ (value r, x)
          → by_permission c raw (record m { token = token }) r x ≡ (value (inr k), v)
          → Authorizes p m w k v
      go (inl e) x asked rest = absurd (ground (arith, rest))
      go (inr allowed) x asked rest =
          subst₂ (λ n y. Authorizes p m w n y) (ground (arith, rest)) (ground (arith, rest))
            (granted some_token valid processed asked)

  answered-Authorizes :
      (p : Pattern) (m k : CallRequest) (w u v : W) (r : ErrorRequest ⊎ Text)
      → is_empty m.token ≡ false
      → request c raw validate_token empty_request m.token w ≡ (value r, u)
      → by_token c raw p m r u ≡ (value (inr k), v)
      → Authorizes p m w k v
  answered-Authorizes p m k w u v (inl e) some_token valid h = absurd (ground (arith, h))
  answered-Authorizes p m k w u v (inr content) some_token valid h =
      elim (Option-cases (c.token_from_json content)) [
        | inl lost ↦ absurd (ground (arith, h, lost))
        | inr (token, processed) ↦
            permitted-Authorizes p m k content token w u v some_token valid processed
              (ap (λ (o : Option Text). with_processed c raw p m o u) (sym processed) ∙ h)
      ]

  authorize-asks :
      (p : Pattern) (m : CallRequest) (w : W)
      → p.authenticated ≡ true
      → is_empty m.token ≡ false
      → authorize c raw p m w
        ≡ (request c raw validate_token empty_request m.token >>= by_token c raw p m) w
  unfolding authorize
  authorize-asks p m w needed some_token = ground (arith, needed, some_token)

  pub authorize-Authorizes :
      (p : Pattern) (m k : CallRequest) (w v : W)
      → authorize c raw p m w ≡ (value (inr k), v)
      → Authorizes p m w k v
  unfolding authorize
  authorize-Authorizes p m k w v h = elim (Bool-cases p.authenticated) [
    | inr free ↦
        subst₂ (λ n y. Authorizes p m w n y) (ground (arith, h, free)) (ground (arith, h, free))
          (unauthenticated free)
    | inl needed ↦ elim (Bool-cases (is_empty m.token)) [
      | inl none_sent ↦ absurd (ground (arith, h, needed, none_sent))
      | inr some_token ↦
          let (r, u, asked, rest) =
            >>=-eq-value (request c raw validate_token empty_request m.token) (by_token c raw p m) w
              (sym (authorize-asks p m w needed some_token) ∙ h) in
          answered-Authorizes p m k w u v r some_token asked rest
    ]
  ]

  -- A call that gets as far as the handler has been authorized, and every access function of its
  -- endpoint has been asked, in their order, about the call with the processed token; the first one
  -- that refuses stops it.
  pub decide-Authorizes-Passes :
      (p : Pattern) (parts : List (AccessPart W)) (m k : CallRequest) (w v : W)
      → decide c raw p parts m w ≡ (value (inr k), v)
      → (n : CallRequest) × (u : W) × Authorizes p m w n u × Passes p parts n u k v
  unfolding decide
  decide-Authorizes-Passes p parts m k w v h =
      let (r, u, ended, rest) =
        >>=-eq-value (authorize c raw p m) (by_authorization c raw p parts) w h in
      go r u ended rest
    where
      go :
          (r : Result) (u : W)
          → authorize c raw p m w ≡ (value r, u)
          → by_authorization c raw p parts r u ≡ (value (inr k), v)
          → (n : CallRequest) × (u : W) × Authorizes p m w n u × Passes p parts n u k v
      go (inl e) u ended rest = absurd (ground (arith, rest))
      go (inr n) u ended rest =
          (n, u, authorize-Authorizes p m n w u ended, run_access-Passes p parts n k u v rest)
