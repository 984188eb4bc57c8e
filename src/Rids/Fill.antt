-- ===== src/Rids/Fill.antt =====
-- What `EndpointNameSpecific` gives (v2/pkg/rids/pattern.go): each placeholder of the endpoint is
-- replaced by its own parameter, although the code replaces the first occurrence of a text.
use mathlib.Core.List.{append_assoc, append-nil}
use spike_broker.Prelude.{
  ◌≡◌, refl, sym, ap, ◌∙◌, ◌≢◌, Option, none, some, List, [], ◌∷◌, ◌++◌, map, arith, All, Text,
  lookup,
}
use spike_broker.Text.{has_byte, join, split}
use spike_broker.Text.Split.{Free, split-join}
use spike_broker.Text.Replace.{Free-append, replace_first_behind}
use spike_broker.Rids.Method.{Params, is_placeholder}
use spike_broker.Rids.Pattern.{Pattern, fill_part, fill_parts, endpoint_name_specific}

-- An endpoint by its parts: a literal, or a placeholder by its name.
pub data Segment : Type 0 where
  lit : Text → Segment
  param : Text → Segment

abbrev pub show : Segment → Text
show (lit t) = t
show (param name) = b'$' ∷ name

abbrev pub found_text : Option Text → Text
found_text none = []
found_text (some v) = v

-- The text of a part under an assignment of the parameters.
abbrev pub value : Params → Segment → Text
value m (lit t) = t
value m (param name) = found_text (lookup name m)

abbrev pub IsPlain : Segment → Type 0
IsPlain (lit t) = Free b'$' t × Free b'.' t
IsPlain (param name) = (name ≢ []) × Free b'.' name

-- Every placeholder has a parameter that is not empty and holds no `$`.
abbrev pub IsFilled : Params → Segment → Type 0
IsFilled m (lit t) = Unit
IsFilled m (param name) = (v : Text) × (lookup name m ≡ some v) × (v ≢ []) × Free b'$' v

fill_part-show :
    (m : Params) (s : Segment) (pre rest : Text)
    → IsPlain s
    → IsFilled m s
    → Free b'$' pre
    → fill_part m (pre ++ (show s ++ rest)) (show s) ≡ pre ++ (value m s ++ rest)
unfolding fill_part is_placeholder has_byte
fill_part-show m (lit t) pre rest p f h = ground arith
fill_part-show m (param []) pre rest p f h = absurd (p.0 refl)
fill_part-show m (param (c ∷ name)) pre rest p (v, found_v, ne, free) h =
    rw (found_v) (ground (arith, replace_first_behind b'$' pre (c ∷ name) rest v h))

value-Free : (m : Params) (s : Segment) → IsPlain s → IsFilled m s → Free b'$' (value m s)
value-Free m (lit t) p f = p.0
value-Free m (param name) p (v, found_v, ne, free) = rw found_v free

-- What stands behind the first part.
abbrev behind : List Text → Text
behind [] = []
behind (p ∷ ps) = b'.' ∷ join b'.' (p ∷ ps)

join-cons : (p : Text) (ps : List Text) → join b'.' (p ∷ ps) ≡ p ++ behind ps
unfolding join
join-cons p [] = sym (append-nil p)
join-cons p (q ∷ ps) = refl

fill_parts_step :
    (m : Params) (s : Segment) (rest : List Text) (pre : Text)
    → IsPlain s
    → IsFilled m s
    → Free b'$' pre
    → fill_parts m (pre ++ join b'.' (show s ∷ rest)) (show s ∷ rest)
      ≡ fill_parts m (pre ++ (value m s ++ behind rest)) rest
unfolding fill_parts
fill_parts_step m s rest pre p f h =
    ap (λ t. fill_parts m t rest)
      (ap (λ t. fill_part m (pre ++ t) (show s)) (join-cons (show s) rest)
        ∙ fill_part-show m s pre (behind rest) p f h)

fill_parts_from :
    (m : Params) (s : Segment) (segs : List Segment) (pre : Text)
    → All IsPlain (s ∷ segs)
    → All (IsFilled m) (s ∷ segs)
    → Free b'$' pre
    → fill_parts m (pre ++ join b'.' (map show (s ∷ segs))) (map show (s ∷ segs))
      ≡ pre ++ join b'.' (map (value m) (s ∷ segs))
fill_parts_from m s [] pre p f h =
    fill_parts_step m s [] pre p.0 f.0 h
    ∙ unfold fill_parts join in ap (λ t. pre ++ t) (append-nil (value m s))
fill_parts_from m s (t ∷ segs) pre p f h =
    let next = pre ++ (value m s ++ (b'.' ∷ [])) in
    let dot : Text = b'.' ∷ [] in
    let free : Free b'$' next =
      Free-append b'$' pre (value m s ++ dot) h
        (Free-append b'$' (value m s) dot (value-Free m s p.0 f.0) (unfold has_byte in refl)) in
    let regroup = λ (x : Text).
      append_assoc pre (value m s ++ dot) x ∙ ap (λ y. pre ++ y) (append_assoc (value m s) dot x) in
    fill_parts_step m s (map show (t ∷ segs)) pre p.0 f.0 h
    ∙ ap (λ x. fill_parts m x (map show (t ∷ segs)))
        (sym (regroup (join b'.' (map show (t ∷ segs)))))
    ∙ fill_parts_from m t segs next p.1 f.1 free
    ∙ regroup (join b'.' (map (value m) (t ∷ segs)))
    ∙ ap (λ x. pre ++ x) (sym (join-cons (value m s) (map (value m) (t ∷ segs))))

-- The parts of an endpoint that has such segments are their texts.
show-Free : (s : Segment) → IsPlain s → Free b'.' (show s)
unfolding has_byte
show-Free (lit t) p = p.1
show-Free (param name) p = p.1

All-show : (segs : List Segment) → All IsPlain segs → All (Free b'.') (map show segs)
All-show [] h = tt
All-show (s ∷ segs) h = (show-Free s h.0, All-show segs h.1)

pub split-show :
    (s : Segment) (segs : List Segment)
    → All IsPlain (s ∷ segs)
    → split b'.' (join b'.' (map show (s ∷ segs))) ≡ map show (s ∷ segs)
split-show s segs h = split-join b'.' (show s) (map show segs) (All-show (s ∷ segs) h)

pub join-ne-nil :
    (s : Segment) (segs : List Segment) → show s ≢ [] → join b'.' (map show (s ∷ segs)) ≢ []
unfolding join
join-ne-nil s [] h = h
join-ne-nil (lit []) (t ∷ segs) h = absurd (h refl)
join-ne-nil (lit (c ∷ x)) (t ∷ segs) h = λ e. cc
join-ne-nil (param name) (t ∷ segs) h = λ e. cc

-- The specific name of a pattern is the service, the endpoint with each placeholder replaced by
-- its own parameter, and the method, with dots between. The endpoint is given by its segments:
-- literals without `$` and dots, and named placeholders whose parameters are set, not empty, and
-- free of `$`.
pub endpoint_name_specific-value :
    (p : Pattern) (s : Segment) (segs : List Segment)
    → p.method_value.generic_endpoint ≡ join b'.' (map show (s ∷ segs))
    → show s ≢ []
    → All IsPlain (s ∷ segs)
    → All (IsFilled p.method_value.params) (s ∷ segs)
    → endpoint_name_specific p
      ≡ p.method_value.service_name
        ++ (b'.'
            ∷ (join b'.' (map (value p.method_value.params) (s ∷ segs))
                ++ (b'.' ∷ p.method_value.http_method)))
unfolding endpoint_name_specific
endpoint_name_specific-value p s segs e ne plain filled =
    let m = p.method_value in
    let generic = join b'.' (map show (s ∷ segs)) in
    let full : fill_parts m.params generic (split b'.' generic)
        ≡ join b'.' (map (value m.params) (s ∷ segs)) =
      ap (λ parts. fill_parts m.params generic parts) (split-show s segs plain)
      ∙ fill_parts_from m.params s segs [] plain filled (unfold has_byte in refl) in
    rw e (ground (arith, full, join-ne-nil s segs ne))
