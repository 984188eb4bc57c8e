-- ===== src/Broker/Call.antt =====
-- v2/pkg/broker/callbase.go, call.go, callv1.go and access.go: a call as a service sees it, what
-- it answers, and the form in which it travels.
use spike_broker.Prelude.{
  ℕ, Bool, true, false, Option, none, some, [], ◌==◌, if◌then◌else◌, is_empty, Text, codes, lookup,
}
use spike_broker.Rids.Method.{Params}
use spike_broker.Rids.Pattern.{
  Pattern, Any, nil, bytes, str, json, query, set_params, clone, params, version,
}
use spike_broker.Broker.Message.{
  GoError, of_message, of_traceable, plain, ErrorMessage, Message, GoError, TraceInfo, status_ok,
  error_access_denied, trace, internal_error,
}
use spike_broker.Go.{Go, pure, act, raise, of_value}

-- `call` and `callV1` with their `callBase`. The provider of a call is the state that the
-- operations act on.
pub record Call : Type 0 where
  pub raw_data : Text
  pub reply_str : Text
  pub endpoint_pattern : Pattern
  pub token : Text
  pub err : Option ErrorMessage
  pub api_version : ℕ
  pub is_v1 : Bool

-- The fields that a call has on the wire, for both versions of the interface.
pub record WireCall : Type 0 where
  pub raw_data : Text
  pub reply_str : Text
  pub endpoint_pattern : Pattern
  pub token : Text
  pub params : Params
  pub token_v1 : Text
  pub query_v1 : Text
  pub api_version : ℕ

-- What a JSON text decodes to as a pattern: `MethodValue` may be missing.
pub data Decoded : Type 0 where
  malformed : Decoded
  no_method : Decoded
  decoded : Pattern → Decoded

-- The encoders and decoders of packages encoding/json and urlquery on the values that the broker
-- hands them; `none` is their error.
pub record Codec : Type 0 where
  pub error_to_json : ErrorMessage → Text
  pub error_from_json : Text → Option ErrorMessage
  pub message_to_json : Bool → Message → Text
  pub pattern_to_json : Pattern → Option Text
  pub pattern_from_json : Text → Decoded
  pub any_to_json : Any → Option Text
  pub call_to_json : WireCall → Text
  pub call_from_json : Text → Option WireCall
  pub bytes_to_json : Text → Text
  pub bytes_from_json : Text → Option Text
  pub value_from_json : Text → Option Text
  pub url_encode : Text → Text

-- The switch of `NewCall` on its data; the code panics where marshalling fails.
unfoldable pub payload_of : Codec → Any → Option Text
payload_of c nil = some []
payload_of c (bytes b) = some b
payload_of c (str s) = c.any_to_json (str s)
payload_of c (json v) = c.any_to_json (json v)

abbrev call_of : Pattern → Text → Call
call_of p payload = record {
  raw_data = payload;
  reply_str = [];
  endpoint_pattern = p;
  token = [];
  err = none;
  api_version = 2;
  is_v1 = false;
}

-- `NewCall`; `none` is the panic.
unfoldable pub new_call : Codec → Pattern → Any → Option Call
new_call c p payload = elim (payload_of c payload) [ none ↦ none | some b ↦ some (call_of p b) ]

abbrev pub set_token : Text → Call → Call
set_token token m = record m { token = token }

-- `NewHTTPCall`. Parameters and query are set in the pattern itself.
unfoldable pub new_http_call : Codec → Pattern → Text → Any → Params → Any → Option Call
new_http_call c p token payload ps q = elim (new_call c p payload) [
  | none ↦ none
  | some m ↦
      some
        (record m { endpoint_pattern = query q (set_params ps m.endpoint_pattern); token = token })
]

abbrev query_str : Codec → Any → Text
query_str c (str q) = q
query_str c nil = []
query_str c (bytes b) = c.url_encode b
query_str c (json v) = c.url_encode v

-- The value that `call.ToJSON` marshals: the version is that of the endpoint.
unfoldable pub to_wire : Codec → Call → WireCall
to_wire c m = record {
  raw_data = m.raw_data;
  reply_str = m.reply_str;
  endpoint_pattern = m.endpoint_pattern;
  token = m.token;
  params = params m.endpoint_pattern;
  token_v1 = m.token;
  query_v1 = query_str c m.endpoint_pattern.query_params_value;
  api_version = version m.endpoint_pattern;
}

unfoldable pub to_json : Codec → Call → Text
to_json c m = c.call_to_json (to_wire c m)

-- `call.UnmarshalJSON` and the reply endpoint.
unfoldable pub from_wire : Text → WireCall → Call
from_wire reply w = record {
  raw_data = w.raw_data;
  reply_str = reply;
  endpoint_pattern = w.endpoint_pattern;
  token = w.token;
  err = none;
  api_version = 2;
  is_v1 = false;
}

-- `NewCallV1FromJSON`: the endpoint is a copy of the subscribed pattern with the parameters sent.
unfoldable pub from_wire_v1 : Pattern → Text → WireCall → Call
from_wire_v1 p reply w = record {
  raw_data = w.raw_data;
  reply_str = reply;
  endpoint_pattern = set_params w.params (clone p);
  token = w.token_v1;
  err = none;
  api_version = 1;
  is_v1 = true;
}

-- `NewCallFromJSON`; `none` is the error.
unfoldable pub new_call_from_json : Codec → Text → Pattern → Text → Option Call
new_call_from_json c payload p reply = elim (c.call_from_json payload) [
  | none ↦ none
  | some w ↦ if w.api_version == 2 then some (from_wire reply w) else some (from_wire_v1 p reply w)
]

-- `PathParam`: an unknown key gives the empty text.
unfoldable pub path_param : Text → Call → Text
path_param key m = elim (lookup key (params m.endpoint_pattern)) [ none ↦ [] | some v ↦ v ]

-- `NewAccess`: the fields of the call, with no error.
unfoldable pub new_access : Call → Call
new_access m = record {
  raw_data = m.raw_data;
  reply_str = m.reply_str;
  endpoint_pattern = m.endpoint_pattern;
  token = m.token;
  err = none;
  api_version = 2;
  is_v1 = false;
}

-- `AccessDenied` and `AccessGranted` set and clear the error of an access.
unfoldable pub access_denied : Option GoError → Call → Call
access_denied none a = record a { err = some error_access_denied }
access_denied (some (of_message e)) a = record a { err = some e }
access_denied (some (of_traceable t)) a = record a { err = some t.error_message }
access_denied (some (plain s)) a = record a { err = some (internal_error (some (plain s))) }

abbrev pub access_granted : Call → Call
access_granted a = record a { err = none }

-- What a service answers with: nothing, a text, bytes, or a value that is marshalled.
unfoldable pub answer : Codec → Option Any → Option Message
answer c none = some (record { code_int = status_ok; data_iface = [] })
answer c (some (str s)) = some (record { code_int = status_ok; data_iface = s })
answer c (some (bytes b)) = some (record { code_int = status_ok; data_iface = b })
answer c (some v) = elim (c.any_to_json v) [
  | none ↦ none
  | some b ↦ some (record { code_int = status_ok; data_iface = b })
]

-- The answers of a call go to its reply endpoint; one that expects no reply sends none.
module _ {W : Type 0} (c : Codec) (send : Text → Text → W → W) where
  unfoldable pub reply : Call → Text → Go W (Unit {0})
  reply m payload = if is_empty m.reply_str then pure tt else act (send m.reply_str payload)

  -- `OK` of both versions, which differ in how the data is marshalled. The test of the reply
  -- endpoint comes first, and marshalling may panic.
  unfoldable pub ok : Call → Option Any → Go W (Unit {0})
  ok m result = if is_empty m.reply_str then pure tt else elim (answer c result) [
    | none ↦ raise (of_value (codes "json"))
    | some msg ↦ act (send m.reply_str (c.message_to_json m.is_v1 msg))
  ]

  -- The private method `error`.
  unfoldable pub error : Call → ErrorMessage → Go W (Unit {0})
  error m e = reply m (c.error_to_json e)

  -- `Error`: an error of the broker is sent as it is, after `Trace`; nil panics.
  unfoldable pub call_error : Option TraceInfo → Call → Option GoError → Go W (Unit {0})
  call_error caller m none = raise (of_value (codes "error request cant be nil"))
  call_error caller m (some e) = error m (trace caller e).error_message
