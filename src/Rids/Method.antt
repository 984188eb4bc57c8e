-- ===== src/Rids/Method.antt =====
-- v2/pkg/rids/method.go and base.go: the builder of endpoints. A `MethodType` is a Go string, and
-- a `fmt.Stringer` is the text that its `String` returns.
use spike_broker.Prelude.{
  ℕ, Bool, true, false, not, ◌&&◌, none, some, List, [], ◌∷◌, Text, text_eq, if◌then◌else◌, ltb,
  length, find, drop, Dict, insert, contains,
}
use spike_broker.Text.{split, has_byte, replace_first}
use spike_broker.Rids.Verb
use spike_broker.Rids.Verb.{MethodType}

abbrev pub Params : Type 0
Params = Dict Text

pub record Method : Type 0 where
  pub label_value : Text
  pub service_name : Text
  pub service_label : Text
  pub http_prefix : Text
  pub http_method : MethodType
  pub generic_endpoint : Text
  pub params : Params
  pub is_public : Bool
  pub version : ℕ

-- `strings.Contains(part, "$") && len(part) > 1`.
unfoldable pub is_placeholder : Text → Bool
unfolding has_byte
is_placeholder part = has_byte b'$' part && ltb 1 (length part)

-- The variables of the loop over the given parameters.
pub record Binding : Type 0 where
  pub endpoint : Text
  pub ep_parts : List Text
  pub params_map : Params

-- One round: the first placeholder that is left is named by the parameter and replaced.
unfoldable pub bind_param : Binding → Text → Binding
bind_param b param = elim (find is_placeholder b.ep_parts) [
  | none ↦ b
  | some part ↦
      let endpoint = replace_first b.endpoint part param in
      record {
        endpoint = endpoint;
        ep_parts = split b'.' endpoint;
        params_map = insert (drop 1 part) param b.params_map;
      }
]

unfoldable pub bind_params : Binding → List Text → Binding
bind_params b [] = b
bind_params b (p ∷ ps) = bind_params (bind_param b p) ps

-- The second loop: what is left without a parameter gets the empty text.
unfoldable pub default_params : Params → List Text → Params
default_params m [] = m
default_params m (part ∷ parts) =
    let name = drop 1 part in
    default_params (if has_byte b'$' part && not (contains name m) then insert name [] m else m)
      parts

unfoldable pub new_method : Text → Text → Text → Text → Text → ℕ → List Text → Method
new_method service_name service_label label http_prefix endpoint version params =
    let start : Binding = record {
      endpoint = endpoint;
      ep_parts = split b'.' endpoint;
      params_map = [];
    } in
    let bound = bind_params start params in
    record {
      label_value = label;
      service_name = service_name;
      service_label = service_label;
      http_prefix = http_prefix;
      http_method = [];
      generic_endpoint = endpoint;
      params = default_params bound.params_map bound.ep_parts;
      is_public = false;
      version = version;
    }

-- `Public` has no effect on an internal method.
unfoldable pub public : Method → Method
public m = if not (text_eq m.http_method Verb.internal) then record m { is_public = true } else m

abbrev with_verb : MethodType → Method → Method
with_verb verb m = record m { http_method = verb }

-- What `Internal` leaves in the method: it is never public.
unfoldable pub make_internal : Method → Method
make_internal m = record m { is_public = false; http_method = Verb.internal }

-- What `Get`, `Post`, `Put`, `Patch`, `Delete` and `Event` leave in the method.
unfoldable pub make_verb : MethodType → Method → Method
make_verb verb m = with_verb verb m

-- `updateParams`.
unfoldable pub update_params : Params → Method → Method
update_params params m = record m { params = params }
