-- ===== src/Tests/V1.antt =====
-- A toy service of version 1 (pkg/service/providers/nats/nats-provider.go).
use spike_broker.Prelude.{
  ◌↔◌, ◌≡◌, refl, false, Option, none, some, List, [], ◌∷◌, ◌++◌, ◌==◌, if◌then◌else◌, length, drop,
  Text, codes, text_eq, true,
}
use spike_broker.Rids.Verb
use spike_broker.Broker.Message.{plain}
use spike_broker.Go.{Go, of_error, of_value, raise, ◌>>◌, pure}
use spike_broker.V1.Rids.{pattern_with, bind_each, Pattern, new_method, register, endpoint_name}
use spike_broker.V1.Request.{
  error_internal_server_error, CallRequest, ErrorRequest, Codec, empty_request, access_granted,
  new_access, error_request, success_with, read_answer, send_error,
}
use spike_broker.V1.Handler.{
  prepared, AccessPart, decide, handle, authorize, serve, run_access, unmarshal, blame, request,
  refuses,
}
use spike_broker.V1.Handler.Gate.{decide-Authorizes-Passes, Authorizes, Passes}
use spike_broker.V1.Handler.Leak.{handle-leaked, leaked}
use spike_broker.Text.{has_byte, split, has_prefix, replace_first}
use spike_broker.V1.Search.{
  search, condition, fill, likes, words_params, repeated, join_text, conditions,
}
use spike_broker.V1.Search.Marks.{search-none_iff}
use spike_broker.Tests.World.{Mail, any_text, take}

-- Three texts behind the code and the lengths of two of them.
abbrev written : ErrorRequest → Text
written e =
    e.code
    ∷ length e.message
    ∷ length e.error_message
    ∷ (e.message ++ (e.error_message ++ e.content))

abbrev read : Text → ErrorRequest
read (code ∷ m ∷ n ∷ s) = record {
  message = take m s;
  code = code;
  error = if n == 0 then none else some (take n (drop m s));
  error_message = take n (drop m s);
  content = drop n (drop m s);
  kind = [];
}
read s = record {
  message = [];
  code = 0;
  error = none;
  error_message = [];
  content = [];
  kind = [];
}

abbrev asked_with : Text → CallRequest
asked_with s = record empty_request { token = s }

abbrev codec : Codec
codec = record {
  error_to_json = written;
  error_from_json = read;
  call_to_json = λ m. m.token;
  call_from_json = λ s. some (asked_with s);
  any_to_json = any_text;
  permission_to_json = λ s e m. s;
  token_from_json = λ s. some s;
}

abbrev send : Text → Text → Mail → Mail
send reply content w = (reply, content) ∷ w

abbrev expecting : CallRequest
expecting = record (asked_with (codes "me")) { reply = codes "inbox" }

abbrev item : Pattern
item = register Verb.get (new_method (codes "shop") (codes "Shop") [] (codes "item") [])

-- The service `route` answers every request with the same data.
abbrev raw : Text → Text → Mail → (Option ErrorRequest × Text) × Mail
raw subject content w = ((none, written (success_with (codes "user"))), (subject, content) ∷ w)

abbrev grants : List (AccessPart Mail)
grants = (λ m. pure (m, access_granted new_access)) ∷ []

abbrev admitted : CallRequest
admitted = record expecting { token = codes "user" }

abbrev asked : Mail
asked =
    (codes "route.user.have.permission.INTERNAL", codes "user")
    ∷ (codes "route.token.validate.INTERNAL", codes "me")
    ∷ []

decide-Authorizes-Passes_example :
    (n : CallRequest) × (u : Mail) × Authorizes codec raw item expecting [] n u
    × Passes item grants n u admitted asked
unfolding decide authorize run_access request endpoint_name read_answer refuses pattern_with
    new_method bind_each prepared
decide-Authorizes-Passes_example =
    decide-Authorizes-Passes codec raw item grants expecting admitted [] asked refl

-- The handler panics with an error on one call, and with another value on the rest.
abbrev panics : CallRequest → Go Mail (Unit {0})
panics m =
    if text_eq m.reply (codes "a")
    then raise (of_error (plain (codes "secret")))
    else raise (of_value (codes "oops"))

abbrev open_item : Pattern
open_item = record item { authenticated = false }

handle-leaked_example :
    ((handle codec raw send open_item [] panics (codes "x") (codes "a")
        >> handle codec raw send open_item [] panics (codes "y") (codes "b"))
      (error_internal_server_error, [])).1.1
    ≡ (
      codes "b",
      written (
          leaked codec raw send open_item [] panics error_internal_server_error
            (plain (codes "secret"))
            (codes "oops")),
    )
      ∷ (
        codes "a",
        written (record error_internal_server_error {
          message = codes "secret";
          error_message = codes "internal error";
        }),
      )
      ∷ []
unfolding serve unmarshal decide authorize run_access text_eq handle blame error_request send_error
handle-leaked_example =
    handle-leaked codec raw send open_item [] panics (codes "x") (codes "y") (codes "a") (codes "b")
      (codes "oops") error_internal_server_error (plain (codes "secret")) [] []
      ((
        codes "a",
        written (record error_internal_server_error {
          message = codes "secret";
          error_message = codes "internal error";
        }),
      )
        ∷ [])
      (λ e. cc) refl refl

search-none_iff_example :
    (search (codes "name" ∷ codes "city" ∷ []) (codes "who? me") ≡ none)
    ↔ (has_byte b'?' (codes "who? me") ≡ true)
search-none_iff_example = search-none_iff (codes "name") (codes "city" ∷ []) (codes "who? me") refl

found_name :
    search (codes "name" ∷ []) (codes "me")
    ≡ some (codes "deleted_at IS NULL AND ((name LIKE '%me%'))")
unfolding search condition fill likes words_params repeated join_text conditions has_byte split
    has_prefix replace_first
found_name = refl
