-- ===== src/Http.antt =====
-- `httpHandler` of v2/pkg/spike/http-server.go, and `GetBearer` of v2/pkg/spike-utils/utils.go: a
-- REST request becomes a request to a service.
pub mod Answered
pub mod Routes
use spike_broker.Prelude.{
  ℕ, zero, suc, ◌+◌, ◌-◌, ◌*◌, ◌/◌, ◌%◌, ◌^◌, ◌≤◌, ◌<◌, ◌≡◌, refl, sym, ap, ◌∙◌, ◌≢◌, ◌↔◌, ◌⊎◌, inl,
  inr, Bool, true, false, not, ◌&&◌, ◌||◌, Option, none, some, List, [], ◌∷◌, ◌++◌, map, arith, ltb,
  leb, ◌==◌, if◌then◌else◌, ==_iff, Bool-cases, Option-cases, length, length-append, is_empty, drop,
  find, filter, drop_last, All, All-append, All-left, Text, codes, text_eq, text_eq_refl,
  text_eq_iff, text_eq_ne, Dict, lookup, insert, lookup-insert, contains,
}
use spike_broker.Text.{has_prefix}
use spike_broker.Rids.Method.{Params}
use spike_broker.Rids.Pattern.{Pattern, Any, bytes, str, query, set_params, clone, params}
use spike_broker.Broker.Message.{ErrorMessage, code, status_ok}
use spike_broker.Broker.Call.{Codec}
use spike_broker.Broker.Provider
use spike_broker.Broker.Provider.{Specific, Reply, raw}
use spike_broker.Go.{Go, pure, raise, of_value, PanicValue, ◌>>=◌}

-- What the handler reads of an `http.Request`: the body, or the text of the error in reading it;
-- the header and the form value that may hold a token; the parameters that the router found; and
-- the encoded query.
pub data Body : Type 0 where
  unread : Text → Body
  read : Text → Body

pub record HttpRequest : Type 0 where
  pub body : Body
  pub authorization : Text
  pub form_token : Text
  pub url_param : Text → Text
  pub encoded_query : Text

-- What it writes: the code given to `WriteHeader`, the headers and the content. From Go 1.19 on,
-- net/http sends the code 100 ahead as information, and the content with the code 200.
pub record HttpResponse : Type 0 where
  pub status : ℕ
  pub headers : Dict Text
  pub content : Text

-- A data URL as package dataurl decodes it, and that package with the hash for an ETag.
pub record DataUrl : Type 0 where
  pub content_type : Text
  pub content : Text
  pub parameters : Dict Text

pub record Web : Type 0 where
  pub data_url : Text → Option DataUrl
  pub etag : Text → Text

abbrev status_bad_request : ℕ
status_bad_request = 400

-- `GetBearer`.
unfoldable pub get_bearer : HttpRequest → Text
get_bearer r =
    if not (is_empty r.authorization) && has_prefix r.authorization (codes "Bearer ")
    then drop (length (codes "Bearer ")) r.authorization
    else r.form_token

-- The loop over the parameters of the pattern: those that the path gives a value are set.
unfoldable pub bound_params : (Text → Text) → Params → Params
bound_params url_param [] = []
bound_params url_param ((name, old) ∷ ps) =
    let rest = bound_params url_param ps in
    if is_empty (url_param name) then rest else (name, url_param name) ∷ rest

-- The pattern that is requested.
unfoldable pub requested : Pattern → HttpRequest → Pattern
requested p r =
    query (str r.encoded_query) (set_params (bound_params r.url_param (params p)) (clone p))

abbrev pub plain_response : ℕ → Text → HttpResponse
plain_response status content = record { status = status; headers = []; content = content }

-- `WriteHeader` of net/http panics on a code outside 100 to 999.
abbrev pub is_invalid : ℕ → Bool
is_invalid status = ltb status 100 || ltb 999 status

abbrev pub invalid_code : PanicValue
invalid_code = of_value (codes "invalid WriteHeader code")

unfoldable pub written : {W : Type 0} → HttpResponse → Go W HttpResponse
written r = if is_invalid r.status then raise invalid_code else pure r

abbrev disposition : Option Text → Dict Text
disposition none = []
disposition (some name) =
    (codes "Content-Disposition", codes "inline; filename=\"" ++ (name ++ codes "\"")) ∷ []

abbrev file_response : Web → DataUrl → HttpResponse
file_response web d = record {
  status = status_ok;
  headers =
      (codes "Content-Type", d.content_type)
      ∷ (codes "ETag", web.etag d.content)
      ∷ disposition (lookup (codes "filename") d.parameters);
  content = d.content;
}

-- A result that is a data URL with a type and data is sent as a file.
unfoldable pub result_response : Web → Text → Option DataUrl → HttpResponse
result_response web result none = plain_response status_ok result
result_response web result (some d) =
    if not (is_empty d.content_type) && not (is_empty d.content)
    then file_response web d
    else plain_response status_ok result

abbrev result_text : Option Text → Text
result_text none = []
result_text (some t) = t

unfoldable pub response : Codec → Web → Option ErrorMessage → Option Text → HttpResponse
response c web (some e) stored = plain_response (code e) (c.error_to_json e)
response c web none stored =
    result_response web (result_text stored) (web.data_url (result_text stored))

module _ {W : Type 0} (c : Codec) (impl : Specific W) (web : Web) where
  unfoldable pub forward : Pattern → HttpRequest → Body → Go W HttpResponse
  forward p r (unread e) = pure (plain_response status_bad_request e)
  forward p r (read content) =
      Provider.request c impl (requested p r) (bytes content) raw (some (get_bearer r)) >>= λ reply.
      written (response c web reply.error reply.stored)

  -- `httpHandler`.
  unfoldable pub http_handler : Pattern → HttpRequest → Go W HttpResponse
  http_handler p r = forward p r r.body
