-- ===== src/V1/Url/Own.antt =====
-- The address of a pattern whose parameters are given (`EndpointHTTP`) and the path of its route
-- (`register`), both of pkg/rids/base.go.
use mathlib.Core.List.{append_assoc, append-nil}
use spike_broker.Prelude.{
  ℕ, ◌≡◌, refl, sym, ap, ◌∙◌, false, Option, List, [], ◌∷◌, ◌++◌, map, arith, ◌==◌, if◌then◌else◌,
  is_empty, All, All-append, Text, codes, Dict, insert,
}
use spike_broker.Text.{has_byte, has_prefix, join, split, replace_all, replace_first}
use spike_broker.Text.Split.{Free, split-join}
use spike_broker.Text.Replace.{Free-append, replace_first_behind}
use spike_broker.V1.Rids.{
  Pattern, new_method, register, pattern_with, bind_part, bind_each, endpoint_no_method,
}
use spike_broker.V1.Nats.{fill_params}
use spike_broker.V1.Middleware.{slashes}
use spike_broker.V1.Routes.{route_of, path_parts, braced, drop_dollars}
use spike_broker.V1.Url.{endpoint_http, query_text}

-- A part of an endpoint: a literal, or a placeholder with the value of its parameter.
pub data Part : Type 0 where
  lit : Text → Part
  bound : Text → Text → Part

-- The part in the endpoint, in the path of the route, and with the value.
abbrev pub show : Part → Text
show (lit t) = t
show (bound name v) = b'$' ∷ name

abbrev pub path_part : Part → Text
path_part (lit t) = t
path_part (bound name v) = braced name

abbrev pub filled : Part → Text
filled (lit t) = t
filled (bound name v) = v

abbrev pub values : List Part → List Text
values [] = []
values (lit t ∷ ps) = values ps
values (bound name v ∷ ps) = v ∷ values ps

-- Neither a dot nor a `$`.
abbrev pub IsBare : Text → Type 0
IsBare t = Free b'.' t × Free b'$' t

abbrev pub IsPlain : Part → Type 0
IsPlain (lit t) = IsBare t
IsPlain (bound name v) = IsBare name × IsBare v

show-Free : (ps : List Part) → All IsPlain ps → All (Free b'.') (map show ps)
unfolding has_byte
show-Free [] h = tt
show-Free (lit t ∷ ps) h = (h.0.0, show-Free ps h.1)
show-Free (bound name v ∷ ps) h = (h.0.0.0, show-Free ps h.1)

filled-IsBare : (ps : List Part) → All IsPlain ps → All IsBare (map filled ps)
filled-IsBare [] h = tt
filled-IsBare (lit t ∷ ps) h = (h.0, filled-IsBare ps h.1)
filled-IsBare (bound name v ∷ ps) h = (h.0.1, filled-IsBare ps h.1)

All-dots : (xs : List Text) → All IsBare xs → All (Free b'.') xs
All-dots [] h = tt
All-dots (x ∷ xs) h = (h.0.0, All-dots xs h.1)

All-dollars : (xs : List Text) → All IsBare xs → All (Free b'$') xs
All-dollars [] h = tt
All-dollars (x ∷ xs) h = (h.0.1, All-dollars xs h.1)

-- The path of the route.
drop_dollars-Free : (s : Text) → Free b'$' s → drop_dollars s ≡ s
unfolding drop_dollars has_byte
drop_dollars-Free [] h = refl
drop_dollars-Free (c ∷ s) h = ground (arith, drop_dollars-Free s)

path_parts-show : (ps : List Part) → All IsPlain ps → path_parts (map show ps) ≡ map path_part ps
unfolding path_parts has_byte drop_dollars
path_parts-show [] h = refl
path_parts-show (lit t ∷ ps) h = ground (arith, h.0.1, path_parts-show ps h.1)
path_parts-show (bound name v ∷ ps) h =
    ground (arith, drop_dollars-Free name h.0.0.1, path_parts-show ps h.1)

-- The slashes of the address.
slashes-Free : (s : Text) → Free b'.' s → slashes s ≡ s
unfolding slashes has_byte
slashes-Free [] h = refl
slashes-Free (c ∷ s) h = ground (arith, slashes-Free s)

slashes-append : (s t : Text) → slashes (s ++ t) ≡ slashes s ++ slashes t
unfolding slashes
slashes-append [] t = refl
slashes-append (c ∷ s) t = ap (λ r. (if c == b'.' then b'/' else c) ∷ r) (slashes-append s t)

slashes-join : (xs : List Text) → All (Free b'.') xs → slashes (join b'.' xs) ≡ join b'/' xs
unfolding join slashes
slashes-join [] h = refl
slashes-join (x ∷ []) h = slashes-Free x h.0
slashes-join (x ∷ y ∷ xs) h =
    slashes-append x (b'.' ∷ join b'.' (y ∷ xs))
    ∙ rw (slashes-Free x h.0, slashes-join (y ∷ xs) h.1) refl

join-Free :
    (c sep : ℕ) (xs : List Text) → (sep == c) ≡ false → All (Free c) xs → Free c (join sep xs)
unfolding join has_byte
join-Free c sep [] h k = refl
join-Free c sep (x ∷ []) h k = k.0
join-Free c sep (x ∷ y ∷ xs) h k =
    Free-append c x (sep ∷ join sep (y ∷ xs)) k.0 (rw h (join-Free c sep (y ∷ xs) h k.1))

-- Without a `$` no parameter is put in.
replace_all-Free : (c : ℕ) (sub by s : Text) → Free c s → replace_all (c ∷ sub) by 0 s ≡ s
unfolding replace_all has_byte has_prefix
replace_all-Free c sub by [] h = refl
replace_all-Free c sub by (d ∷ s) h = ground (arith, replace_all-Free c sub by s)

fill_params-Free : (m : Dict Text) (s : Text) → Free b'$' s → fill_params m s ≡ s
unfolding fill_params
fill_params-Free [] s h = refl
fill_params-Free ((key, v) ∷ m) s h = rw (replace_all-Free b'$' key v s h) (fill_params-Free m s h)

-- The parameters in their places.
bind_part-behind :
    (v name : Text) (pre rest : List Text) (m : Dict Text) (e : Text)
    → All IsBare pre
    → bind_part v (pre ++ ((b'$' ∷ name) ∷ rest)) (m, e)
      ≡ (insert name v m, replace_first e (b'$' ∷ name) v)
unfolding bind_part has_byte
bind_part-behind v name [] rest m e h = refl
bind_part-behind v name (x ∷ pre) rest m e h =
    ground (arith, h.0.1, bind_part-behind v name pre rest m e h.1)

abbrev front : List Text → Text
front [] = []
front (x ∷ pre) = x ++ (b'.' ∷ front pre)

abbrev behind : List Text → Text
behind [] = []
behind (x ∷ rest) = b'.' ∷ join b'.' (x ∷ rest)

front-Free : (pre : List Text) → All IsBare pre → Free b'$' (front pre)
unfolding has_byte
front-Free [] h = refl
front-Free (x ∷ pre) h = Free-append b'$' x (b'.' ∷ front pre) h.0.1 (front-Free pre h.1)

join-append :
    (pre : List Text) (x : Text) (rest : List Text)
    → join b'.' (pre ++ (x ∷ rest)) ≡ front pre ++ (x ++ behind rest)
unfolding join
join-append [] x [] = sym (append-nil x)
join-append [] x (y ∷ rest) = refl
join-append (p ∷ []) x rest =
    ap (λ t. p ++ (b'.' ∷ t)) (join-append [] x rest)
    ∙ sym (append_assoc p (b'.' ∷ []) (x ++ behind rest))
join-append (p ∷ q ∷ pre) x rest =
    ap (λ t. p ++ (b'.' ∷ t)) (join-append (q ∷ pre) x rest)
    ∙ sym (append_assoc p (b'.' ∷ front (q ∷ pre)) (x ++ behind rest))

replace_first-join :
    (pre rest : List Text) (name v : Text)
    → All IsBare pre
    → replace_first (join b'.' (pre ++ ((b'$' ∷ name) ∷ rest))) (b'$' ∷ name) v
      ≡ join b'.' (pre ++ (v ∷ rest))
replace_first-join pre rest name v h =
    ap (λ t. replace_first t (b'$' ∷ name) v) (join-append pre (b'$' ∷ name) rest)
    ∙ replace_first_behind b'$' (front pre) name (behind rest) v (front-Free pre h)
    ∙ sym (join-append pre v rest)

split-join_behind :
    (pre rest : List Text) (x : Text)
    → All (Free b'.') (pre ++ (x ∷ rest))
    → split b'.' (join b'.' (pre ++ (x ∷ rest))) ≡ pre ++ (x ∷ rest)
split-join_behind [] rest x h = split-join b'.' x rest h
split-join_behind (p ∷ pre) rest x h = split-join b'.' p (pre ++ (x ∷ rest)) h

bind_each-filled :
    (pre : List Text) (ps : List Part) (m : Dict Text)
    → All IsBare pre
    → All IsPlain ps
    → (bind_each (values ps) (m, join b'.' (pre ++ map show ps))).1
      ≡ join b'.' (pre ++ map filled ps)
unfolding bind_each
bind_each-filled pre [] m h k = refl
bind_each-filled pre (lit t ∷ ps) m h k =
    ap (λ xs. (bind_each (values ps) (m, join b'.' xs)).1)
      (sym (append_assoc pre (t ∷ []) (map show ps)))
    ∙ bind_each-filled (pre ++ (t ∷ [])) ps m (All-append IsBare pre (t ∷ []) h (k.0, tt)) k.1
    ∙ ap (join b'.') (append_assoc pre (t ∷ []) (map filled ps))
bind_each-filled pre (bound name v ∷ ps) m h k =
    let xs = pre ++ ((b'$' ∷ name) ∷ map show ps) in
    let parts = split-join_behind pre (map show ps) (b'$' ∷ name) (
      All-append (Free b'.') pre ((b'$' ∷ name) ∷ map show ps) (All-dots pre h)
        (show-Free (bound name v ∷ ps) k)) in
    ap (λ ys. (bind_each (values ps) (bind_part v ys (m, join b'.' xs))).1) parts
    ∙ ap (λ r. (bind_each (values ps) r).1)
        (bind_part-behind v name pre (map show ps) m (join b'.' xs) h)
    ∙ ap (λ e. (bind_each (values ps) (insert name v m, e)).1)
        (replace_first-join pre (map show ps) name v h)
    ∙ ap (λ ys. (bind_each (values ps) (insert name v m, join b'.' ys)).1)
        (sym (append_assoc pre (v ∷ []) (map show ps)))
    ∙ bind_each-filled (pre ++ (v ∷ [])) ps (insert name v m)
        (All-append IsBare pre (v ∷ []) h (k.0.1, tt)) k.1
    ∙ ap (join b'.') (append_assoc pre (v ∷ []) (map filled ps))

-- The name of a service in front of its endpoint.
cons-join :
    (service : Text) (f : Part → Text) (ps : List Part)
    → is_empty (join b'.' (map filled ps)) ≡ false
    → service ++ (b'.' ∷ join b'.' (map f ps)) ≡ join b'.' (service ∷ map f ps)
unfolding join
cons-join service f [] named = absurd (ground (arith, named))
cons-join service f (p ∷ ps) named = refl

module _ (service rid_label label verb : Text) (q : Option Text) (ps : List Part) where
  -- The pattern that a rid returns for an endpoint of these parts, with its parameters and a query.
  abbrev pub given : Pattern
  given =
      record (register verb
        (new_method service rid_label label (join b'.' (map show ps)) (values ps))) {
          query_params = q;
        }

  abbrev pub IsNamed : Type 0
  IsNamed = is_empty (join b'.' (map filled ps)) ≡ false

  given-endpoint : All IsPlain ps → given.endpoint ≡ join b'.' (map filled ps)
  unfolding new_method pattern_with
  given-endpoint plain = bind_each-filled [] ps [] tt plain

  route_of-given :
      IsBare service
      → All IsPlain ps
      → IsNamed
      → (route_of given).path ≡ codes "/api/" ++ join b'/' (service ∷ map path_part ps)
  unfolding route_of new_method pattern_with
  route_of-given bare plain named =
      let text = cons-join service show ps named in
      let parts = split-join b'.' service (map show ps) (bare.0, show-Free ps plain) in
      let own = path_parts-show (lit service ∷ ps) (bare, plain) in
      let full = ap is_empty (given-endpoint plain) ∙ named in rw (full, text, parts, own) refl

  endpoint_http-given :
      IsBare service
      → All IsPlain ps
      → IsNamed
      → endpoint_http given ≡ codes "/api/" ++ (join b'/' (service ∷ map filled ps) ++ query_text q)
  unfolding endpoint_http endpoint_no_method new_method pattern_with
  endpoint_http-given bare plain named =
      let text = cons-join service filled ps named in
      let all = filled-IsBare ps plain in
      let slashed = slashes-join (service ∷ map filled ps) (bare.0, All-dots (map filled ps) all) in
      let free =
        join-Free b'$' b'/' (service ∷ map filled ps) refl
          (bare.1, All-dollars (map filled ps) all) in
      rw
        (
          given-endpoint plain,
          named,
          text,
          slashed,
          fill_params-Free given.params (join b'/' (service ∷ map filled ps)) free,
        )
        refl

  -- The address of a pattern with all its parameters, where neither the service nor a part nor a
  -- value has a dot or a `$`, and the endpoint is not empty: it is the path of the pattern's route with
  -- each value in the place of its braces, and the query behind it.
  pub endpoint_http-route_of :
      IsBare service
      → All IsPlain ps
      → IsNamed
      → ((route_of given).path ≡ codes "/api/" ++ join b'/' (service ∷ map path_part ps))
        × (endpoint_http given
            ≡ codes "/api/" ++ (join b'/' (service ∷ map filled ps) ++ query_text q))
  endpoint_http-route_of bare plain named =
      (route_of-given bare plain named, endpoint_http-given bare plain named)
