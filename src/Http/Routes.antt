-- ===== src/Http/Routes.antt =====
-- `httpSetup` of v2/pkg/spike/http-server.go: the routes of the REST side.
use mathlib.Core.List.{map-append}
use spike_broker.Prelude.{
  ◌≡◌, refl, sym, ap, ◌∙◌, inl, inr, Bool, true, false, ◌||◌, List, [], ◌∷◌, ◌++◌, map, arith,
  if◌then◌else◌, Bool-cases, filter, Text, codes, text_eq, text_eq_iff,
}
use spike_broker.Text.{replace_all, replace_first}
use spike_broker.Rids.Verb
use spike_broker.Rids.Method.{Params}
use spike_broker.Rids.Pattern.{Pattern, method, params, endpoint_rest}
use spike_broker.Socket.Message.{Session, is_rest, get_handlers}

-- A route of the router: the verb, the path, and the pattern that its handler requests.
pub record HttpRoute : Type 0 where
  pub verb : Text
  pub path : Text
  pub target : Pattern

-- The loop over the parameters of a pattern, in the order in which Go's map gives them.
unfoldable pub brace_params : Params → Text → Text
brace_params [] endpoint = endpoint
brace_params ((param, v) ∷ ps) endpoint =
    brace_params ps (replace_all (b'$' ∷ param) (b'{' ∷ (param ++ (b'}' ∷ []))) 0 endpoint)

unfoldable pub route_of : (Text → Text) → Pattern → HttpRoute
route_of encode p = record {
  verb = method p;
  path = brace_params (params p) (endpoint_rest encode p);
  target = p;
}

-- One round of the loop over the patterns: the switch has no case for any other verb.
unfoldable pub add_route : (Text → Text) → Pattern → List HttpRoute → List HttpRoute
add_route encode p rest =
    if text_eq (method p) Verb.event
    then rest
    else if text_eq (method p) Verb.get
    then route_of encode p ∷ rest
    else if text_eq (method p) Verb.post
    then route_of encode p ∷ rest
    else if text_eq (method p) Verb.put
    then route_of encode p ∷ rest
    else if text_eq (method p) Verb.patch
    then route_of encode p ∷ rest
    else if text_eq (method p) Verb.delete
    then route_of encode p ∷ rest
    else rest

unfoldable pub routes : (Text → Text) → List Pattern → List HttpRoute
routes encode [] = []
routes encode (p ∷ ps) = let rest = routes encode ps in add_route encode p rest

-- The patterns of all resources, and their routes.
unfoldable pub all_patterns : List (List Pattern) → List Pattern
all_patterns [] = []
all_patterns (r ∷ rs) = let rest = all_patterns rs in r ++ rest

unfoldable pub all_routes : (Text → Text) → List (List Pattern) → List HttpRoute
all_routes encode [] = []
all_routes encode (r ∷ rs) = let rest = all_routes encode rs in routes encode r ++ rest

-- The path of the WebSocket.
unfoldable pub ws_path : Text → Text
ws_path prefix = b'/' ∷ replace_first prefix (codes "/") []

abbrev pub targets : List HttpRoute → List Pattern
targets rs = map (λ r. r.target) rs

-- A verb that is EVENT is none of the others.
is_rest_event : (p : Pattern) → text_eq (method p) Verb.event ≡ true → is_rest p ≡ false
unfolding text_eq
is_rest_event p h =
    ap
      (λ (verb : Text).
        text_eq verb Verb.get
        || text_eq verb Verb.post
        || text_eq verb Verb.put
        || text_eq verb Verb.patch
        || text_eq verb Verb.delete)
      ((text_eq_iff (method p) Verb.event).0 h)

targets-add_route :
    (encode : Text → Text) (p : Pattern) (rest : List HttpRoute)
    → targets (add_route encode p rest) ≡ (if is_rest p then p ∷ targets rest else targets rest)
unfolding add_route route_of
targets-add_route encode p rest = elim (Bool-cases (text_eq (method p) Verb.event)) [
  | inl event ↦ ground (arith, event, is_rest_event p event)
  | inr other ↦ ground (arith, other)
]

targets-routes :
    (encode : Text → Text) (ps : List Pattern) → targets (routes encode ps) ≡ filter is_rest ps
unfolding routes
targets-routes encode [] = refl
targets-routes encode (p ∷ ps) =
    targets-add_route encode p (routes encode ps)
    ∙ ap (λ l. if is_rest p then p ∷ l else l) (targets-routes encode ps)

filter-append :
    (f : Pattern → Bool) (xs ys : List Pattern) → filter f (xs ++ ys) ≡ filter f xs ++ filter f ys
filter-append f [] ys = refl
filter-append f (x ∷ xs) ys = ground (arith, filter-append f xs ys)

targets-all_routes :
    (encode : Text → Text) (resources : List (List Pattern))
    → targets (all_routes encode resources) ≡ filter is_rest (all_patterns resources)
unfolding all_routes all_patterns
targets-all_routes encode [] = refl
targets-all_routes encode (r ∷ rs) =
    map-append (λ (x : HttpRoute). x.target) (routes encode r) (all_routes encode rs)
    ∙ ap (λ l. l ++ targets (all_routes encode rs)) (targets-routes encode r)
    ∙ ap (λ l. filter is_rest r ++ l) (targets-all_routes encode rs)
    ∙ sym (filter-append is_rest r (all_patterns rs))

-- The REST routes lead to the patterns that a WebSocket of the same server can request, in the same
-- order: one for each pattern with a verb of REST.
pub all_routes-get_handlers :
    (encode : Text → Text) (resources : List (List Pattern)) (s : Session)
    → s.handlers ≡ all_patterns resources
    → targets (all_routes encode resources) ≡ get_handlers s
unfolding get_handlers
all_routes-get_handlers encode resources s same =
    targets-all_routes encode resources ∙ ap (filter is_rest) (sym same)
