-- ===== src/V1/Routes.antt =====
-- The routes that pkg/rids/base.go registers for the patterns of version 1.

use spike_broker.Prelude.{
  Bool, not, ◌&&◌, ◌||◌, List, [], ◌∷◌, ◌++◌, ◌==◌, if◌then◌else◌, is_empty, Text, codes, text_eq,
}
use spike_broker.Text.{split, join, has_byte}
use spike_broker.Rids.Verb
use spike_broker.V1.Rids.{Pattern, endpoint_name}

-- `EndpointRest`.
pub record EndpointRest : Type 0 where
  pub method : Text
  pub endpoint : Text
  pub params : List Text
  pub authenticated : Bool

-- A route of the router: the verb, the path, and what the handler is given.
pub record Route : Type 0 where
  pub verb : Text
  pub path : Text
  pub target : EndpointRest

-- `strings.ReplaceAll(p, "$", "")`.
unfoldable pub drop_dollars : Text → Text
drop_dollars [] = []
drop_dollars (c ∷ s) = let rest = drop_dollars s in if c == b'$' then rest else c ∷ rest

abbrev pub braced : Text → Text
braced s = b'{' ∷ (s ++ (b'}' ∷ []))

-- The loop over the parts: a part with a `$` becomes a parameter of the path.
unfoldable pub path_parts : List Text → List Text
path_parts [] = []
path_parts (p ∷ ps) =
    let rest = path_parts ps in if has_byte b'$' p then braced (drop_dollars p) ∷ rest else p ∷ rest

unfoldable pub path_params : List Text → List Text
path_params [] = []
path_params (p ∷ ps) =
    let rest = path_params ps in if has_byte b'$' p then drop_dollars p ∷ rest else rest

abbrev pub route_parts : Pattern → List Text
route_parts p =
    split b'.'
      (if is_empty p.endpoint then p.service else p.service ++ (b'.' ∷ p.endpoint_no_params))

-- `register`, but for the verb: the path and the endpoint.
unfoldable pub route_of : Pattern → Route
route_of p = record {
  verb = p.method;
  path = codes "/api/" ++ join b'/' (path_parts (route_parts p));
  target = record {
    method = p.method;
    endpoint = endpoint_name p;
    params = path_params (route_parts p);
    authenticated = p.authenticated;
  };
}

-- The switch on the verb: any other registers nothing.
unfoldable pub is_rest_verb : Text → Bool
is_rest_verb verb =
    text_eq verb Verb.get
    || text_eq verb Verb.post
    || text_eq verb Verb.put
    || text_eq verb Verb.patch
    || text_eq verb Verb.delete

-- `Routes`.
unfoldable pub routes : List Pattern → List Route
routes [] = []
routes (p ∷ ps) =
    let rest = routes ps in
    if not (text_eq p.method Verb.internal) && not (text_eq p.method Verb.event)
    then (if is_rest_verb p.method then route_of p ∷ rest else rest)
    else rest
