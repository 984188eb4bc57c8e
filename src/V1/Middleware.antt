-- ===== src/V1/Middleware.antt =====
-- pkg/route/handlers/auth-middleware.go: which REST requests of version 1 need a valid token.
pub mod Exempt
pub mod Guarded
pub mod Joined
use spike_broker.Prelude.{
  ℕ, zero, suc, ◌+◌, ◌-◌, ◌*◌, ◌/◌, ◌%◌, ◌^◌, ◌≤◌, ◌<◌, ◌≡◌, refl, sym, ap, ◌∙◌, ◌≢◌, ◌↔◌, ◌⊎◌, inl,
  inr, Bool, true, false, not, ◌&&◌, ◌||◌, Option, none, some, List, [], ◌∷◌, ◌++◌, map, arith, ltb,
  leb, ◌==◌, if◌then◌else◌, ==_iff, Bool-cases, Option-cases, length, length-append, is_empty, drop,
  find, filter, drop_last, All, All-append, All-left, Text, codes, text_eq, text_eq_refl,
  text_eq_iff, text_eq_ne, Dict, lookup, insert, lookup-insert, contains,
}
use spike_broker.Text.{split, join, has_byte, has_prefix}
use spike_broker.Go.{Go, pure, ◌>>=◌}
use spike_broker.V1.Rids.{Pattern, endpoint_no_method}
use spike_broker.V1.Auth.{AuthRid}

-- What the middleware reads of a request: `bearer` is the token that GetBearer finds, or empty.
pub record RestRequest : Type 0 where
  pub path : Text
  pub verb : Text
  pub bearer : Text

-- What it does: it answers with 401, or calls the next handler, having set the token header or not.
pub data Passage : Type 0 where
  unauthorized : Passage
  next : Option Text → Passage

-- `strings.ReplaceAll(s, ".", "/")`.
unfoldable pub slashes : Text → Text
slashes [] = []
slashes (c ∷ s) = let rest = slashes s in (if c == b'.' then b'/' else c) ∷ rest

unfoldable pub rest_path : Pattern → Text
rest_path p = codes "/api/" ++ slashes (endpoint_no_method p)

-- The loop over the parts: the parts of the request that stand at a parameter are overwritten, up to
-- the first that differs.
unfoldable pub overwrite : List Text → List Text → List Text
overwrite [] rs = rs
overwrite (e ∷ es) [] = []
overwrite (e ∷ es) (r ∷ rs) =
    let rest = overwrite es rs in
    if has_prefix e (codes "$") then e ∷ rest else if text_eq e r then r ∷ rest else r ∷ rs

-- `strings.Join(partsRequest, ".") == strings.Join(partsEndpoint, ".")` after the loop.
unfoldable pub same_parts : List Text → List Text → Bool
same_parts es rs = length es == length rs && text_eq (join b'.' (overwrite es rs)) (join b'.' es)

-- Whether one pattern lets the request pass without a token.
unfoldable pub exempts : RestRequest → Pattern → Bool
exempts r p =
    not p.authenticated
    && ((text_eq r.path (rest_path p) && text_eq r.verb p.method)
        || (has_byte b'$' (endpoint_no_method p)
            && same_parts (split b'/' (rest_path p)) (split b'/' r.path)))

unfoldable pub is_exempt : RestRequest → List Pattern → Bool
is_exempt r [] = false
is_exempt r (p ∷ ps) = exempts r p || is_exempt r ps

-- `len(request) <= 2 || request[2] != auth.Service` is false.
unfoldable pub is_for : Text → List Text → Bool
is_for service (x ∷ y ∷ z ∷ rest) = text_eq z service
is_for service parts = false

abbrev pub by_validation : Text × Bool → Passage
by_validation (processed, true) = next (some processed)
by_validation (processed, false) = unauthorized

module _ {W : Type 0} where
  -- The request names the service of `auth`.
  unfoldable pub pass_service : RestRequest → AuthRid W → Go W Passage
  pass_service r auth =
      if is_exempt r auth.patterns
      then pure (next (some r.bearer))
      else if is_empty r.bearer
      then pure unauthorized
      else auth.auth.validate_token r.bearer >>= λ t. pure (by_validation t)

  -- `AuthMiddleware`.
  unfoldable pub auth_middleware : List (AuthRid W) → RestRequest → Go W Passage
  auth_middleware [] r = pure (next none)
  auth_middleware (auth ∷ auths) r =
      let rest = auth_middleware auths r in
      if has_prefix r.path (codes "/ws")
      then pure (next none)
      else if is_for auth.service (split b'/' r.path)
      then pass_service r auth
      else rest
