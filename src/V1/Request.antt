-- ===== src/V1/Request.antt =====
-- pkg/service/request/request.go: calls, accesses and errors of version 1.
pub mod Answered
use spike_broker.Prelude.{
  ℕ, zero, suc, ◌+◌, ◌-◌, ◌*◌, ◌/◌, ◌%◌, ◌^◌, ◌≤◌, ◌<◌, ◌≡◌, refl, sym, ap, ◌∙◌, ◌≢◌, ◌↔◌, ◌⊎◌, inl,
  inr, Bool, true, false, not, ◌&&◌, ◌||◌, Option, none, some, List, [], ◌∷◌, ◌++◌, map, arith, ltb,
  leb, ◌==◌, if◌then◌else◌, ==_iff, Bool-cases, Option-cases, length, length-append, is_empty, drop,
  find, filter, drop_last, All, All-append, All-left, Text, codes, text_eq, text_eq_refl,
  text_eq_iff, text_eq_ne, Dict, lookup, insert, lookup-insert, contains,
}
use spike_broker.Prelude.Decimal.{ℤ}
use spike_broker.Nats.Response.{timeout_message}
use spike_broker.Rids.Pattern.{Any, nil, bytes, str, json}
use spike_broker.Broker.Message.{plain}
use spike_broker.Go.{Go, Exit, of_error, of_value, pure, raise, act}

-- `CallRequest`. PostForm and Header are not used.
pub record CallRequest : Type 0 where
  pub params : Dict Text
  pub content : Text
  pub reply : Text
  pub form : Dict (List Text)
  pub token : Text
  pub query : Text
  pub endpoint : Text

-- `ErrorRequest`; a Go error is its text.
pub record ErrorRequest : Type 0 where
  pub message : Text
  pub code : ℕ
  pub error : Option Text
  pub error_message : Text
  pub content : Text
  pub kind : Text

-- The JSON encoders; of an answer that is none `Parse` leaves an empty error.
pub record Codec : Type 0 where
  pub error_to_json : ErrorRequest → Text
  pub error_from_json : Text → ErrorRequest
  pub call_to_json : CallRequest → Text
  pub call_from_json : Text → Option CallRequest
  pub any_to_json : Any → Option Text
  pub permission_to_json : Text → Text → Text → Text
  pub token_from_json : Text → Option Text

-- An error with a text, as those of the package are made.
abbrev pub named_error : Text → ℕ → ErrorRequest
named_error text code = record {
  message = text;
  code = code;
  error = some text;
  error_message = [];
  content = [];
  kind = [];
}

abbrev pub error_not_found : ErrorRequest
error_not_found = named_error (codes "not found") 404

abbrev pub error_status_unauthorized : ErrorRequest
error_status_unauthorized = named_error (codes "not authorized") 401

abbrev pub error_status_forbidden : ErrorRequest
error_status_forbidden = named_error (codes "forbidden") 403

abbrev pub error_invalid_params : ErrorRequest
error_invalid_params = named_error (codes "invalid params") 400

abbrev pub error_timeout : ErrorRequest
error_timeout = named_error (codes "timeout") 408

abbrev pub error_internal_server_error : ErrorRequest
error_internal_server_error = named_error (codes "internal error") 500

-- `InternalError`.
abbrev pub internal_error : Text → ErrorRequest
internal_error text = record (named_error text 500) { error_message = text }

-- `&CallRequest{}`, of which EmptyRequest makes one.
abbrev pub empty_request : CallRequest
empty_request = record {
  params = [];
  content = [];
  reply = [];
  form = [];
  token = [];
  query = [];
  endpoint = [];
}

-- What `OK` sends: nothing, a text, bytes, or a value that is marshalled. It panics on nil.
abbrev pub success_with : Text → ErrorRequest
success_with content = record {
  message = [];
  code = 200;
  error = none;
  error_message = [];
  content = content;
  kind = [];
}

unfoldable pub answer : Codec → Option Any → Option ErrorRequest
answer c none = some (success_with [])
answer c (some (str s)) = some (success_with s)
answer c (some (bytes b)) = some (success_with b)
answer c (some nil) = none
answer c (some (json v)) = elim (c.any_to_json (json v)) [
  | none ↦ none
  | some b ↦ some (success_with b)
]

abbrev pub with_text : Option Text → ErrorRequest → ErrorRequest
with_text none e = e
with_text (some text) e = record e { error_message = text }

module _ {W : Type 0} (c : Codec) (send : Text → Text → W → W) where
  -- `OK`.
  unfoldable pub ok : CallRequest → Option Any → Go W (Unit {0})
  ok m result = if is_empty m.reply then pure tt else elim (answer c result) [
    | none ↦ raise (of_error (plain (codes "json")))
    | some e ↦ act (send m.reply (c.error_to_json e))
  ]

  -- The private `error`, which sends the text of the Go error with it.
  unfoldable pub send_error : CallRequest → ErrorRequest → Go W (Unit {0})
  send_error m e =
      if is_empty m.reply
      then pure tt
      else act (send m.reply (c.error_to_json (with_text e.error e)))

  -- `Error`.
  abbrev pub call_error : CallRequest → Text → Text → Go W (Unit {0})
  call_error m text kind = send_error m (record (internal_error text) { kind = kind })

  -- `ErrorRequest`, with its message if one is given; nil panics.
  unfoldable pub error_request : CallRequest → Option ErrorRequest → Option Text → Go W (Unit {0})
  error_request m none msg = raise (of_value (codes "error request cant be nil"))
  error_request m (some e) none = send_error m e
  error_request m (some e) (some text) = send_error m (record e { message = text })

  -- `NotFound`.
  abbrev pub not_found : CallRequest → Go W (Unit {0})
  not_found m = send_error m error_not_found

  -- `Timeout`.
  unfoldable pub timeout : CallRequest → ℤ → Go W (Unit {0})
  timeout m t = if is_empty m.reply then pure tt else act (send m.reply (timeout_message t))

-- `AccessRequest`, but for the call that it embeds.
pub record AccessRequest : Type 0 where
  pub err : Option Bool
  pub get : Option Bool
  pub methods : List Text

abbrev pub new_access : AccessRequest
new_access = record { err = none; get = none; methods = [] }

-- `IsError`: an access that nothing has been said about is an error.
abbrev pub is_error : AccessRequest → Bool
is_error a = elim a.err [ none ↦ true | some b ↦ b ]

-- `Access`, `AccessDenied` and `AccessGranted`.
abbrev pub access : Bool → List Text → AccessRequest → AccessRequest
access get methods a = record { err = some false; get = some get; methods = methods }

abbrev pub access_denied : AccessRequest → AccessRequest
access_denied a = record a { err = some true }

abbrev pub access_granted : AccessRequest → AccessRequest
access_granted a = record a { err = some false }

-- What `Request` of pkg/service/providers/nats/nats-provider.go makes of an answer: an error, or
-- the data.
unfoldable pub read_answer : Codec → Text → ErrorRequest ⊎ Text
read_answer c result =
    let e = c.error_from_json result in
    if not (e.code == 200) && not (is_empty e.message) then inl e else inr e.content
