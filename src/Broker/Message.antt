-- ===== src/Broker/Message.antt =====
-- v2/pkg/broker/error.go, success.go and traceable.go: messages, errors and their codes.
use spike_broker.Prelude.{ℕ, ◌≡◌, refl, Option, none, some, List, [], ◌∷◌, ◌++◌, Text, codes}

-- The codes of package net/http that the broker uses.
abbrev pub status_ok : ℕ
status_ok = 200

abbrev pub status_already_reported : ℕ
status_already_reported = 208

abbrev pub status_bad_request : ℕ
status_bad_request = 400

abbrev pub status_unauthorized : ℕ
status_unauthorized = 401

abbrev pub status_forbidden : ℕ
status_forbidden = 403

abbrev pub status_not_found : ℕ
status_not_found = 404

abbrev pub status_request_timeout : ℕ
status_request_timeout = 408

abbrev pub status_internal_server_error : ℕ
status_internal_server_error = 500

abbrev pub status_service_unavailable : ℕ
status_service_unavailable = 503

-- `Message`: a code and data, of which nil is the empty text.
pub record Message : Type 0 where
  pub code_int : ℕ
  pub data_iface : Text

-- `errorMessage`, which embeds a message.
pub record ErrorMessage : Type 0 where
  pub message : Message
  pub message_str : Text

abbrev pub code : ErrorMessage → ℕ
code e = e.message.code_int

-- `NewError`.
abbrev pub new_error : Text → ℕ → Text → ErrorMessage
new_error msg code payload = record {
  message = record { code_int = code; data_iface = payload };
  message_str = msg;
}

abbrev pub error_information_already_exists : ErrorMessage
error_information_already_exists =
    new_error (codes "information already exists") status_already_reported []

abbrev pub error_not_found : ErrorMessage
error_not_found = new_error (codes "not found") status_not_found []

abbrev pub error_status_unauthorized : ErrorMessage
error_status_unauthorized = new_error (codes "not authorized") status_unauthorized []

abbrev pub error_status_forbidden : ErrorMessage
error_status_forbidden = new_error (codes "forbidden") status_forbidden []

abbrev pub error_invalid_params : ErrorMessage
error_invalid_params = new_error (codes "invalid params") status_bad_request []

abbrev pub error_internal_server_error : ErrorMessage
error_internal_server_error = new_error (codes "internal error") status_internal_server_error []

abbrev pub error_access_denied : ErrorMessage
error_access_denied = new_error (codes "access denied") status_forbidden []

abbrev pub error_timeout : ErrorMessage
error_timeout = new_error (codes "timeout") status_request_timeout []

abbrev pub error_service_unavailable : ErrorMessage
error_service_unavailable = new_error (codes "service unavailable") status_service_unavailable []

-- `NewInvalidParamsError`.
abbrev pub new_invalid_params_error : Text → ErrorMessage
new_invalid_params_error msg = new_error msg status_bad_request []

-- `NewServiceUnavailableError`.
abbrev pub new_service_unavailable_error : Text → ErrorMessage
new_service_unavailable_error endpoint =
    new_error (codes "service " ++ (endpoint ++ codes " unavailable")) status_service_unavailable []

pub record TraceInfo : Type 0 where
  pub file : Text
  pub line : ℕ

-- `traceableError`, which embeds an error message.
pub record TraceableError : Type 0 where
  pub error_message : ErrorMessage
  pub traces : List TraceInfo

-- A Go value of type `error` that is not nil: one of the two types of the broker, or a value of
-- another type, given by the text of its `Error` method.
pub data GoError : Type 0 where
  of_message : ErrorMessage → GoError
  of_traceable : TraceableError → GoError
  plain : Text → GoError

abbrev pub error_text : GoError → Text
error_text (of_message e) = e.message_str
error_text (of_traceable t) = t.error_message.message_str
error_text (plain s) = s

-- `InternalError`; nil is `none`.
unfoldable pub internal_error : Option GoError → ErrorMessage
internal_error none = error_internal_server_error
internal_error (some e) = new_error (error_text e) status_internal_server_error []

-- `errToTraceable` on an error that is not nil. Only an `errorMessage` keeps its code.
unfoldable pub err_to_traceable : GoError → TraceableError
err_to_traceable (of_message e) = record { error_message = e; traces = [] }
err_to_traceable e = record { error_message = internal_error (some e); traces = [] }

-- The method `trace`, where runtime.Caller reports a position or none.
unfoldable pub trace_at : Option TraceInfo → TraceableError → TraceableError
trace_at none t = t
trace_at (some info) t = record t { traces = t.traces ++ (info ∷ []) }

-- `Trace`: a traceable error is kept, any other becomes one.
unfoldable pub trace : Option TraceInfo → GoError → TraceableError
trace caller (of_traceable t) = trace_at caller t
trace caller (of_message e) = trace_at caller (err_to_traceable (of_message e))
trace caller (plain s) = trace_at caller (err_to_traceable (plain s))

-- The error message that the broker sends for a Go error: its own, or an internal error.
abbrev pub as_message : GoError → ErrorMessage
as_message (of_message e) = e
as_message (of_traceable t) = t.error_message
as_message (plain s) = new_error s status_internal_server_error []

-- `Trace` keeps the message that the error stands for, whatever position it records.
pub trace-as_message :
    (caller : Option TraceInfo) (e : GoError) → (trace caller e).error_message ≡ as_message e
unfolding trace trace_at err_to_traceable internal_error
trace-as_message none (of_message e) = refl
trace-as_message none (of_traceable t) = refl
trace-as_message none (plain s) = refl
trace-as_message (some info) (of_message e) = refl
trace-as_message (some info) (of_traceable t) = refl
trace-as_message (some info) (plain s) = refl
