-- ===== src/Tests/World.antt =====
-- A small service, a toy encoding of its messages, and a provider that keeps what is sent.
use spike_broker.Prelude.{
  ℕ, zero, suc, Bool, true, false, Option, none, some, List, [], ◌∷◌, ◌++◌, ◌==◌, if◌then◌else◌,
  length, drop, Text, codes, text_eq,
}
use spike_broker.Rids.Verb
use spike_broker.Rids.Method.{Method, Params}
use spike_broker.Rids.Pattern.{Pattern, Any, nil, bytes, str, json}
use spike_broker.Broker.Message.{ErrorMessage, Message, new_error, code}
use spike_broker.Broker.Call.{Codec, Call, WireCall, Decoded, malformed, no_method, decoded}
use spike_broker.Broker.Provider.{Specific}
use spike_broker.Api.Request.{Env}
use spike_broker.Go.{pure}

-- The subjects and texts that went out, the last one first.
abbrev pub Mail : Type 0
Mail = List (Text × Text)

abbrev pub method_of : Text → Text → Params → Method
method_of verb endpoint params = record {
  label_value = [];
  service_name = codes "shop";
  service_label = [];
  http_prefix = codes "api";
  http_method = verb;
  generic_endpoint = endpoint;
  params = params;
  is_public = false;
  version = 2;
}

abbrev pub pattern_of : Text → Text → Params → Pattern
pattern_of verb endpoint params = record {
  method_value = method_of verb endpoint params;
  query_params_value = nil;
}

abbrev pub item : Pattern
item = pattern_of Verb.get (codes "item.$Id") ((codes "Id", codes "7") ∷ [])

abbrev pub sold : Pattern
sold = pattern_of Verb.event (codes "sold") []

abbrev pub take : ℕ → Text → Text
take zero s = []
take (suc n) [] = []
take (suc n) (c ∷ s) = c ∷ take n s

-- The code, the length of the data, the data, and the text.
abbrev pub encode : ErrorMessage → Text
encode e = code e ∷ length e.message.data_iface ∷ (e.message.data_iface ++ e.message_str)

abbrev pub decode : Text → Option ErrorMessage
decode (c ∷ n ∷ s) = some (new_error (drop n s) c (take n s))
decode s = none

abbrev pub encode_message : Bool → Message → Text
encode_message v1 m = encode (record { message = m; message_str = [] })

abbrev pub read_pattern : Text → Decoded
read_pattern [] = malformed
read_pattern (c ∷ s) = if c == b'{' then no_method else decoded sold

abbrev pub wire_of : Text → WireCall
wire_of t = record {
  raw_data = t;
  reply_str = [];
  endpoint_pattern = sold;
  token = [];
  params = [];
  token_v1 = [];
  query_v1 = [];
  api_version = 2;
}

abbrev pub any_text : Any → Option Text
any_text nil = none
any_text (bytes b) = some b
any_text (str s) = some s
any_text (json v) = some v

abbrev pub codec : Codec
codec = record {
  error_to_json = encode;
  error_from_json = decode;
  message_to_json = encode_message;
  pattern_to_json = λ p. some p.method_value.generic_endpoint;
  pattern_from_json = read_pattern;
  any_to_json = any_text;
  call_to_json = λ w. w.raw_data;
  call_from_json = λ t. some (wire_of t);
  bytes_to_json = λ t. t;
  bytes_from_json = λ t. some t;
  value_from_json = λ t. some t;
  url_encode = λ t. t;
}

abbrev pub call_with : Text → Text → Call
call_with reply payload = record {
  raw_data = payload;
  reply_str = reply;
  endpoint_pattern = sold;
  token = codes "me";
  err = none;
  api_version = 2;
  is_v1 = false;
}

-- A provider that answers every request with the given text.
abbrev pub answering : Text → Specific Mail
answering text = record {
  subscribe_raw = λ p group w. ((none, 1), (group, []) ∷ w);
  request_raw = λ subject payload w. ((none, text), (subject, payload) ∷ w);
  publish_raw = λ subject payload w. (none, (subject, payload) ∷ w);
  new_call = λ p payload. some (call_with [] []);
}

-- An authenticator that knows one token, and an authorizer that permits everything.
abbrev pub env : Env Mail
env = record {
  codec = codec;
  send = λ reply payload w. (reply, payload) ∷ w;
  caller = none;
  validate_token = λ t. pure (codes "user", text_eq t (codes "me"));
  has_permission = λ m. pure true;
  log = λ t w. w;
}
