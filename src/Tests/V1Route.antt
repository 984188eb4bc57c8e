-- ===== src/Tests/V1Route.antt =====
-- A toy service `route` of version 1 (pkg/route).
use spike_broker.Prelude.{
  ℕ, ◌≡◌, refl, ◌↔◌, inl, inr, true, false, Option, none, some, [], ◌∷◌, arith, ◌==◌, if◌then◌else◌,
  drop, Text, codes, text_eq, insert,
}
use spike_broker.Rids.Pattern.{Any, json}
use spike_broker.Rids.Verb
use spike_broker.Text.{split, has_byte, has_prefix, replace_first, join}
use spike_broker.Go.{pure}
use spike_broker.V1.Rids.{
  Pattern, endpoint_name, endpoint_no_method, register, new_method, pattern_with, bind_each,
  bind_part,
}
use spike_broker.V1.Auth.{AuthRid}
use spike_broker.V1.Request.{
  ok, answer, read_answer, send_error, CallRequest, ErrorRequest, Codec, empty_request,
  error_internal_server_error,
}
use spike_broker.V1.Handler.{
  authorize, request, handle, serve, unmarshal, decide, run_access, prepared, add_params,
  permission_request,
}
use spike_broker.V1.Middleware.{
  RestRequest, is_exempt, auth_middleware, is_for, pass_service, exempts, rest_path, slashes,
  same_parts, overwrite,
}
use spike_broker.V1.Middleware.Exempt.{is_exempt-AnyOf, AnyOf, Exempts}
use spike_broker.V1.Middleware.Guarded.{auth_middleware-Allowed, Allowed}
use spike_broker.V1.Rest.{permission_of}
use spike_broker.V1.Rest.Permission.{permission_of-endpoint_name, asked}
use spike_broker.V1.Route.{TokenCodec, route_raw, on_validate_token, on_user_have_permission}
use spike_broker.V1.Route.Answers.{IsFaithful, Returns}
use spike_broker.V1.Route.Checks.{authorize-Approved, Approved}
use spike_broker.Tests.World.{Mail}

abbrev pub item : Pattern
item = register Verb.get (new_method (codes "shop") (codes "Shop") [] (codes "item.$Id") [])

abbrev open_item : Pattern
open_item = record item { authenticated = false }

-- One user, who may do everything.
abbrev pub auth : AuthRid Mail
auth = record {
  service = codes "shop";
  auth = record {
    validate_token =
        λ t. pure (if text_eq t (codes "me") then (codes "user", true) else ([], false));
    user_have_permission = λ m. pure true;
  };
  patterns = item ∷ open_item ∷ [];
}

abbrev asking : RestRequest
asking = record { path = codes "/api/shop/item/7"; verb = Verb.post; bearer = [] }

-- The path is that of a parameter, so that the method is not compared.
is_exempt-AnyOf_example :
    (is_exempt asking (item ∷ open_item ∷ []) ≡ true)
    ↔ AnyOf (Exempts asking) (item ∷ open_item ∷ [])
is_exempt-AnyOf_example = is_exempt-AnyOf asking (item ∷ open_item ∷ [])

auth_middleware-Allowed_example : Allowed asking (auth ∷ []) [] (some []) []
unfolding auth_middleware has_prefix is_for split text_eq pass_service is_exempt exempts
    pattern_with new_method rest_path slashes endpoint_no_method bind_each has_byte same_parts join
    overwrite insert replace_first bind_part
auth_middleware-Allowed_example = auth_middleware-Allowed asking (auth ∷ []) (some []) [] [] refl

permission_of-endpoint_name_example : permission_of (endpoint_name item) ≡ asked item
unfolding has_byte pattern_with new_method bind_each has_prefix endpoint_no_method
permission_of-endpoint_name_example = permission_of-endpoint_name item refl refl refl (
  refl,
  (
    refl,
    (refl, (refl, (refl, (refl, (refl, (refl, (refl, (refl, (refl, (refl, (refl, tt))))))))))),
  ),
)

-- Of a call only the token arrives, and of an answer the code and either the data or the message.
abbrev arrives : CallRequest → CallRequest
arrives m = record empty_request { token = m.token }

abbrev written : ErrorRequest → Text
written e = e.code ∷ (if e.code == 200 then e.content else e.message)

abbrev read_as : ℕ → Text → Text → ErrorRequest
read_as code message content = record {
  message = message;
  code = code;
  error = none;
  error_message = [];
  content = content;
  kind = [];
}

abbrev read : Text → ErrorRequest
read [] = read_as 0 [] []
read (code ∷ s) = if code == 200 then read_as code [] s else read_as code s []

abbrev text_of_any : Any → Option Text
text_of_any (json s) = some s
text_of_any x = none

abbrev pub codec : Codec
codec = record {
  error_to_json = written;
  error_from_json = read;
  call_to_json = λ m. 1 ∷ m.token;
  call_from_json = λ s. some (record empty_request { token = drop 1 s });
  any_to_json = text_of_any;
  permission_to_json = λ s e m. s;
  token_from_json = λ s. some s;
}

abbrev tokens : TokenCodec
tokens = record { token_to_json = λ t. t }

codec-IsFaithful : IsFaithful codec tokens arrives
codec-IsFaithful = record {
  sent = λ m e. cc;
  read = λ m. refl;
  marshalled = λ t. refl;
  success = λ s. refl;
  token = λ t. refl;
  refusal = λ e h. elim h [ inl k ↦ ground (arith, k) | inr k ↦ ground (arith, k) ];
}

auth-Returns : Returns auth
auth-Returns = record { validates = λ t w. (_, _, _, refl); permits = λ m w. (_, _, refl) }

abbrev call : CallRequest
call = record empty_request { token = codes "me"; reply = codes "inbox" }

abbrev admitted : CallRequest
admitted = record call { token = codes "user" }

authorize-Approved_example :
    Approved codec tokens arrives auth [] codec-IsFaithful auth-Returns item call [] admitted []
    × (error_internal_server_error ≡ error_internal_server_error)
unfolding authorize pattern_with new_method request route_raw text_eq endpoint_name bind_each handle
    serve unmarshal decide run_access on_validate_token prepared ok answer read_answer insert
    has_byte has_prefix replace_first split add_params permission_request send_error bind_part
    endpoint_no_method on_user_have_permission
authorize-Approved_example =
    authorize-Approved codec tokens arrives auth [] codec-IsFaithful auth-Returns item call admitted
      error_internal_server_error [] (error_internal_server_error, []) refl refl
