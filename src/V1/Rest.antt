-- ===== src/V1/Rest.antt =====
-- `handler` of pkg/route/route-message-handler.go: a REST request of version 1 becomes a request to a
-- service.
pub mod Permission
use spike_broker.Prelude.{
  ℕ, zero, suc, ◌+◌, ◌-◌, ◌*◌, ◌/◌, ◌%◌, ◌^◌, ◌≤◌, ◌<◌, ◌≡◌, refl, sym, ap, ◌∙◌, ◌≢◌, ◌↔◌, ◌⊎◌, inl,
  inr, Bool, true, false, not, ◌&&◌, ◌||◌, Option, none, some, List, [], ◌∷◌, ◌++◌, map, arith, ltb,
  leb, ◌==◌, if◌then◌else◌, ==_iff, Bool-cases, Option-cases, length, length-append, is_empty, drop,
  find, filter, drop_last, All, All-append, All-left, Text, codes, text_eq, text_eq_refl,
  text_eq_iff, text_eq_ne, Dict, lookup, insert, lookup-insert, contains,
}
use spike_broker.Text.{split, join, has_prefix}
use spike_broker.Rids.Verb
use spike_broker.Http.{
  Body, unread, read, HttpResponse, Web, plain_response, result_response, written,
}
use spike_broker.Go.{Go, pure, ◌>>=◌, value}
use spike_broker.V1.Auth.{AuthRid, HavePermissionRequest}
use spike_broker.V1.Request.{CallRequest, ErrorRequest, Codec, empty_request}
use spike_broker.V1.Routes.{EndpointRest}

-- What the handler reads of an `http.Request` after the middleware: the body, the values of the form
-- and of the path, the query and the form with their encoding, the token header, and the verb.
pub record RestCall : Type 0 where
  pub body : Body
  pub form_value : Text → Text
  pub url_param : Text → Text
  pub url_query : Dict (List Text)
  pub form : Dict (List Text)
  pub encoded_form : Text
  pub token : Text
  pub verb : Text

-- A loop over the parameters of the endpoint: values that are not empty are kept.
unfoldable pub take_values : (Text → Text) → List Text → Dict Text → Dict Text
take_values f [] m = m
take_values f (p ∷ ps) m = take_values f ps (if is_empty (f p) then m else insert p (f p) m)

-- The loop over the query: the first value of each key.
unfoldable pub take_query : Dict (List Text) → Dict Text → Dict Text
take_query [] m = m
take_query ((key, []) ∷ q) m = take_query q m
take_query ((key, v ∷ vs) ∷ q) m = take_query q (insert key v m)

unfoldable pub rest_params : EndpointRest → RestCall → Dict Text
rest_params e r =
    take_query r.url_query (take_values r.url_param e.params (take_values r.form_value e.params []))

-- The call that is sent.
unfoldable pub rest_call : EndpointRest → RestCall → Text → CallRequest
rest_call e r content = record {
  params = rest_params e r;
  content = content;
  reply = [];
  form = r.form;
  token = r.token;
  query = if text_eq r.verb Verb.get then r.encoded_form else [];
  endpoint = e.endpoint;
}

-- `strings.ReplaceAll(s, sub, "")` for a `sub` that is not empty, after `skip` more bytes are left
-- out.
unfoldable pub remove_all : Text → ℕ → Text → Text
remove_all sub skip [] = []
remove_all sub (suc skip) (c ∷ s) = remove_all sub skip s
remove_all sub zero (c ∷ s) =
    let kept = remove_all sub zero s in
    let cut = remove_all sub (length sub - 1) s in if has_prefix (c ∷ s) sub then cut else c ∷ kept

abbrev pub first_text : List Text → Text
first_text [] = []
first_text (x ∷ xs) = x

unfoldable pub last_text : List Text → Text
last_text [] = []
last_text (x ∷ []) = x
last_text (x ∷ y ∷ ys) = last_text (y ∷ ys)

-- The permission that an endpoint's name stands for.
unfoldable pub permission_of : Text → HavePermissionRequest
permission_of endpoint =
    let values = split b'.' endpoint in
    record {
      service = first_text values;
      endpoint = remove_all (b'.' ∷ last_text values) 0 (join b'.' values);
      method = last_text values;
    }

unfoldable pub permission_call : Codec → EndpointRest → RestCall → CallRequest
permission_call c e r =
    let p = permission_of e.endpoint in
    record empty_request {
      content = c.permission_to_json p.service p.endpoint p.method;
      form = r.form;
      token = r.token;
    }

-- What packages of the network and of the encodings make of an answer: the URL of a redirection, or
-- empty, and what `http.Redirect` writes for it with the code 301, the text of an error, and data URLs.
pub record Reading : Type 0 where
  pub web : Web
  pub redirect_url : Text → Text
  pub redirected : Text → HttpResponse
  pub shown : ErrorRequest → Text

abbrev pub status_forbidden : ℕ
status_forbidden = 403

abbrev pub status_internal_server_error : ℕ
status_internal_server_error = 500

-- What is made of an answer that has arrived.
unfoldable pub rest_response : {W : Type 0} → Codec → Reading → Text → Go W HttpResponse
rest_response c reading result =
    let e = c.error_from_json result in
    if not (is_empty e.message)
    then written (plain_response e.code (c.error_to_json e))
    else if not (is_empty (reading.redirect_url result))
    then pure (reading.redirected (reading.redirect_url result))
    else pure (result_response reading.web e.content (reading.web.data_url e.content))

module _ {W : Type 0} (c : Codec) (reading : Reading)
    (raw : Text → Text → W → (Option ErrorRequest × Text) × W) where
  abbrev pub by_result : Option ErrorRequest × Text → Go W HttpResponse
  by_result (some e, result) = pure (plain_response status_internal_server_error (reading.shown e))
  by_result (none, result) = rest_response c reading result

  -- The request to the service.
  unfoldable pub forward : EndpointRest → RestCall → Text → Go W HttpResponse
  forward e r content w =
      let (result, w') = raw e.endpoint (c.call_to_json (rest_call e r content)) w in
      by_result result w'

  abbrev pub if_permitted : EndpointRest → RestCall → Text → Bool → Go W HttpResponse
  if_permitted e r content true = forward e r content
  if_permitted e r content false = pure (plain_response status_forbidden [])

  -- The first authenticator decides on every endpoint that needs authentication.
  unfoldable pub permit : List (AuthRid W) → EndpointRest → RestCall → Text → Go W HttpResponse
  permit [] e r content = forward e r content
  permit (auth ∷ auths) e r content =
      if e.authenticated
      then auth.auth.user_have_permission (permission_call c e r) >>= if_permitted e r content
      else forward e r content

  abbrev pub by_body : List (AuthRid W) → EndpointRest → RestCall → Body → Go W HttpResponse
  by_body auths e r (unread text) = pure (plain_response 400 text)
  by_body auths e r (read content) = permit auths e r content

  -- `handler`.
  unfoldable pub rest_handler : List (AuthRid W) → EndpointRest → RestCall → Go W HttpResponse
  rest_handler auths e r = by_body auths e r r.body
