-- ===== src/V1/Route.antt =====
-- pkg/route/route-service.go: the service `route` of version 1, which decides on tokens and
-- permissions for all others.
pub mod Answers
pub mod Checks
use spike_broker.Prelude.{
  ℕ, zero, suc, ◌+◌, ◌-◌, ◌*◌, ◌/◌, ◌%◌, ◌^◌, ◌≤◌, ◌<◌, ◌≡◌, refl, sym, ap, ◌∙◌, ◌≢◌, ◌↔◌, ◌⊎◌, inl,
  inr, Bool, true, false, not, ◌&&◌, ◌||◌, Option, none, some, List, [], ◌∷◌, ◌++◌, map, arith, ltb,
  leb, ◌==◌, if◌then◌else◌, ==_iff, Bool-cases, Option-cases, length, length-append, is_empty, drop,
  find, filter, drop_last, All, All-append, All-left, Text, codes, text_eq, text_eq_refl,
  text_eq_iff, text_eq_ne, Dict, lookup, insert, lookup-insert, contains,
}
use spike_broker.Rids.Pattern.{Any, json}
use spike_broker.Rids.Verb
use spike_broker.Go.{Go, pure, ◌>>=◌, value, panic, Exit}
use spike_broker.V1.Rids.{Pattern, endpoint_name, validate_token, user_have_permission}
use spike_broker.V1.Auth.{Auth, AuthRid}
use spike_broker.V1.Request.{
  error_timeout, CallRequest, ErrorRequest, Codec, ok, error_request, call_error,
  error_status_unauthorized, error_status_forbidden, named_error,
}
use spike_broker.V1.Handler.{handle}

-- `rs{processed}` as JSON.
pub record TokenCodec : Type 0 where
  pub token_to_json : Text → Text

module _ {W : Type 0} (c : Codec) (tokens : TokenCodec) (send : Text → Text → W → W) where
  abbrev pub by_token : CallRequest → Text × Bool → Go W (Unit {0})
  by_token m (processed, true) = ok c send m (some (json (tokens.token_to_json processed)))
  by_token m (processed, false) = error_request c send m (some error_status_unauthorized) none

  -- `validateToken`: the first authenticator decides.
  unfoldable pub on_validate_token : List (AuthRid W) → CallRequest → Go W (Unit {0})
  on_validate_token [] m = error_request c send m (some error_status_unauthorized) none
  on_validate_token (auth ∷ auths) m = auth.auth.validate_token m.token >>= by_token m

  abbrev pub by_permission : CallRequest → Bool → Go W (Unit {0})
  by_permission m true = ok c send m none
  by_permission m false = error_request c send m (some error_status_forbidden) none

  -- `userHavePermission`.
  unfoldable pub on_user_have_permission : List (AuthRid W) → CallRequest → Go W (Unit {0})
  on_user_have_permission [] m = ok c send m none
  on_user_have_permission (auth ∷ auths) m = auth.auth.user_have_permission m >>= by_permission m

  -- `ready`, where the query of the database ends with the text of an error or with none.
  unfoldable pub on_ready : (W → Option Text × W) → CallRequest → Go W (Unit {0})
  on_ready query m w =
      let (failed, w') = query w in
      elim failed [ some text ↦ call_error c send m text [] w' | none ↦ ok c send m none w' ]

-- A mailbox beside the state: the last text that was sent.
abbrev pub Boxed : Type 0 → Type 0
Boxed W = Option Text × W

abbrev pub post : {W : Type 0} → Text → Text → Boxed W → Boxed W
post reply content (box, w) = (some content, w)

abbrev pub boxed : {W A : Type 0} → Go W A → Go (Boxed W) A
boxed m (box, w) = let (r, w') = m w in (r, (box, w'))

abbrev pub boxed_auth : {W : Type 0} → AuthRid W → AuthRid (Boxed W)
boxed_auth a = record {
  service = a.service;
  auth = record {
    validate_token = λ t. boxed (a.auth.validate_token t);
    user_have_permission = λ m. boxed (a.auth.user_have_permission m);
  };
  patterns = a.patterns;
}

abbrev pub boxed_auths : {W : Type 0} → List (AuthRid W) → List (AuthRid (Boxed W))
boxed_auths [] = []
boxed_auths (a ∷ as') = boxed_auth a ∷ boxed_auths as'

-- What a requester gets: the text in the mailbox, or a timeout.
abbrev pub answer_in : Option Text → Option ErrorRequest × Text
answer_in none = (some error_timeout, [])
answer_in (some content) = (none, content)

abbrev pub delivered :
    {W : Type 0}
    → Exit (Unit {0}) × (ErrorRequest × Boxed W)
    → (Option ErrorRequest × Text) × (ErrorRequest × W)
delivered (r, (g, (box, w))) = (answer_in box, (g, w))

abbrev pub inbox : Text
inbox = codes "inbox"

module _ {W : Type 0} (c : Codec) (tokens : TokenCodec) (auths : List (AuthRid W)) where
  abbrev pub no_requests : Text → Text → Boxed W → (Option ErrorRequest × Text) × Boxed W
  no_requests subject content w = ((some error_timeout, []), w)

  -- A message to a handler of the service, and the answer to it. The first component of the state is
  -- the global error of the service's process.
  abbrev pub at_handler :
      Pattern
      → (CallRequest → Go (Boxed W) (Unit {0}))
      → Text
      → ErrorRequest × W
      → (Option ErrorRequest × Text) × (ErrorRequest × W)
  at_handler p hc content (g, w) =
      delivered (handle c no_requests post p [] hc content inbox (g, (none, w)))

  -- `RequestRaw` to the service, when every message is delivered: `Start` subscribes its handlers.
  unfoldable pub route_raw :
      Text → Text → ErrorRequest × W → (Option ErrorRequest × Text) × (ErrorRequest × W)
  route_raw subject content s =
      if text_eq subject (endpoint_name validate_token)
      then at_handler validate_token (on_validate_token c tokens post (boxed_auths auths)) content s
      else if text_eq subject (endpoint_name user_have_permission)
      then at_handler user_have_permission
          (on_user_have_permission c tokens post (boxed_auths auths)) content s
      else ((some error_timeout, []), s)
