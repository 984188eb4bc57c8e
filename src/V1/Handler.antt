-- ===== src/V1/Handler.antt =====
-- pkg/service/providers/nats/nats-provider.go: Request, and the function that `subscribe` runs on
-- each message of a service of version 1.

pub mod Gate
pub mod Leak
pub mod Open
use spike_broker.Prelude.{
  ℕ, zero, suc, ◌+◌, ◌-◌, ◌*◌, ◌/◌, ◌%◌, ◌^◌, ◌≤◌, ◌<◌, ◌≡◌, refl, sym, ap, ◌∙◌, ◌≢◌, ◌↔◌, ◌⊎◌, inl,
  inr, Bool, true, false, not, ◌&&◌, ◌||◌, Option, none, some, List, [], ◌∷◌, ◌++◌, map, arith, ltb,
  leb, ◌==◌, if◌then◌else◌, ==_iff, Bool-cases, Option-cases, length, length-append, is_empty, drop,
  find, filter, drop_last, All, All-append, All-left, Text, codes, text_eq, text_eq_refl,
  text_eq_iff, text_eq_ne, Dict, lookup, insert, lookup-insert, contains,
}
use spike_broker.Text.{has_prefix}
use spike_broker.Rids.Verb
use spike_broker.Broker.Message.{error_text, plain}
use spike_broker.Go.{Go, Exit, value, panic, of_error, of_value, PanicValue, pure, raise, ◌>>=◌}
use spike_broker.V1.Rids.{
  Pattern, endpoint_name, endpoint_no_method, validate_token, user_have_permission,
}
use spike_broker.V1.Request.{
  CallRequest, ErrorRequest, AccessRequest, Codec, empty_request, error_status_unauthorized,
  error_status_forbidden, error_request, read_answer, is_error,
}

-- `strings.Contains(s, sub)`.
unfoldable pub contains_text : Text → Text → Bool
contains_text [] sub = is_empty sub
contains_text (c ∷ s) sub = let rest = contains_text s sub in has_prefix (c ∷ s) sub || rest

abbrev pub Result : Type 0
Result = ErrorRequest ⊎ CallRequest

-- One function that decides on an access: it may also change the call.
abbrev pub AccessPart : Type 0 → Type 0
AccessPart W = CallRequest → Go W (CallRequest × AccessRequest)

-- The parameters of a pattern go over those of the call.
unfoldable pub add_params : Dict Text → Dict Text → Dict Text
add_params [] ps = ps
add_params ((key, v) ∷ rest) ps = add_params rest (insert key v ps)

-- The call that `Request` sends. The query parameters of the pattern can be encoded.
unfoldable pub prepared : Pattern → CallRequest → Text → CallRequest
prepared p content token = record content {
  params = add_params p.params content.params;
  query = elim p.query_params [ none ↦ content.query | some q ↦ q ];
  token = if is_empty token then content.token else token;
}

-- Whether what an access says forbids the endpoint: it does so while nothing is said.
unfoldable pub matches : Pattern → List Text → Bool
matches p [] = false
matches p (m ∷ ms) = contains_text (endpoint_name p) m || matches p ms

unfoldable pub refuses : Pattern → AccessRequest → Bool
refuses p a = is_error a || elim a.get [
  | none ↦ false
  | some true ↦ not (text_eq p.method Verb.get)
  | some false ↦ not (matches p a.methods)
]

-- The question whether the user may call the endpoint.
unfoldable pub permission_request : Codec → Pattern → CallRequest → CallRequest
permission_request c p m = record empty_request {
  content = c.permission_to_json p.service (endpoint_no_method p) p.method;
  token = m.token;
  form = m.form;
  params = m.params;
  query = if text_eq p.method Verb.get then m.query else [];
}

module _ {W : Type 0} (p : Pattern) where
  abbrev pub by_access : (CallRequest → Go W Result) → CallRequest × AccessRequest → Go W Result
  by_access rest (m, a) = if refuses p a then pure (inl error_status_forbidden) else rest m

  -- The loop "local access".
  unfoldable pub run_access : List (AccessPart W) → CallRequest → Go W Result
  run_access [] m = pure (inr m)
  run_access (part ∷ parts) m = part m >>= by_access (run_access parts)

abbrev pub by_answer : Codec → Option ErrorRequest × Text → ErrorRequest ⊎ Text
by_answer c (some e, result) = inl e
by_answer c (none, result) = read_answer c result

-- `Unmarshal`: no data is an empty call.
unfoldable pub unmarshal : Codec → Text → Text → Option CallRequest
unmarshal c content reply =
    elim (if is_empty content then some empty_request else c.call_from_json content) [
      | none ↦ none
      | some m ↦ some (record m { reply = reply })
    ]

-- What the deferred function makes of the global `ErrorInternalServerError`, which it changes.
unfoldable pub blame : Pattern → PanicValue → ErrorRequest → ErrorRequest
blame p (of_error e) g = record g { message = error_text e }
blame p (of_value v) g = record g {
  error = some (codes "request: " ++ (endpoint_name p ++ (codes ": " ++ v)));
}

abbrev pub with_global : {W A : Type 0} → ErrorRequest → Exit A × W → Exit A × (ErrorRequest × W)
with_global g (r, w) = (r, (g, w))

module _ {W : Type 0} (c : Codec) where
  -- `Request`, over `RequestRaw`.
  unfoldable pub request :
      (Text → Text → W → (Option ErrorRequest × Text) × W)
      → Pattern
      → CallRequest
      → Text
      → Go W (ErrorRequest ⊎ Text)
  request raw p content token w =
      let (r, w') = raw (endpoint_name p) (c.call_to_json (prepared p content token)) w in
      (value (by_answer c r), w')

module _ {W : Type 0} (c : Codec) (raw : Text → Text → W → (Option ErrorRequest × Text) × W) where
  abbrev pub by_permission : CallRequest → ErrorRequest ⊎ Text → Go W Result
  by_permission m (inl e) = pure (inl e)
  by_permission m (inr x) = pure (inr m)

  abbrev pub with_processed : Pattern → CallRequest → Option Text → Go W Result
  with_processed p m none = pure (inl error_status_unauthorized)
  with_processed p m (some t) =
      request c raw user_have_permission (permission_request c p (record m { token = t })) t
      >>= by_permission (record m { token = t })

  abbrev pub by_token : Pattern → CallRequest → ErrorRequest ⊎ Text → Go W Result
  by_token p m (inl e) = pure (inl error_status_unauthorized)
  by_token p m (inr content) = with_processed p m (c.token_from_json content)

  -- The block "validate token and permission".
  unfoldable pub authorize : Pattern → CallRequest → Go W Result
  authorize p m =
      if p.authenticated
      then if is_empty m.token
        then pure (inl error_status_unauthorized)
        else request c raw validate_token empty_request m.token >>= by_token p m
      else pure (inr m)

  abbrev pub by_authorization : Pattern → List (AccessPart W) → Result → Go W Result
  by_authorization p parts (inl e) = pure (inl e)
  by_authorization p parts (inr m) = run_access p parts m

  -- What comes before the handler: an error for the requester, or the call as it goes on.
  unfoldable pub decide : Pattern → List (AccessPart W) → CallRequest → Go W Result
  decide p parts m = authorize p m >>= by_authorization p parts

  module _ (send : Text → Text → W → W) (p : Pattern) (parts : List (AccessPart W))
      (hc : CallRequest → Go W (Unit {0})) where
    abbrev pub finish : CallRequest → Result → Go W (Unit {0})
    finish m (inl e) = error_request c send m (some e) none
    finish m (inr m') = hc m'

    -- The body of the handler, under its deferred function.
    unfoldable pub serve : Text → Text → Go W (Unit {0})
    serve content reply = elim (unmarshal c content reply) [
      | none ↦ raise (of_error (plain (codes "json")))
      | some m ↦ decide p parts m >>= finish m
    ]

    abbrev pub recovered :
        Text → ErrorRequest → Exit (Unit {0}) × W → Exit (Unit {0}) × (ErrorRequest × W)
    recovered reply g (value a, w) = (value a, (g, w))
    recovered reply g (panic q, w) =
        with_global (blame p q g) (
          error_request c send (record empty_request { reply = reply }) (some (blame p q g)) none w)

    -- The handler on a message with its data and its reply, with the global error before and after.
    unfoldable pub handle : Text → Text → Go (ErrorRequest × W) (Unit {0})
    handle content reply (g, w) = recovered reply g (serve content reply w)
