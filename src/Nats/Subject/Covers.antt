-- ===== src/Nats/Subject/Covers.antt =====
-- Which messages reach a subscription (v2/pkg/broker/providers/nats/provider.go): its subject,
-- part by part, against the names of v2/pkg/rids/pattern.go on which requests and events go out.
use spike_broker.Prelude.{
  ◌≡◌, refl, sym, ap, ◌∙◌, ◌⊎◌, inl, inr, true, false, Option, none, some, List, [], ◌∷◌, ◌++◌, map,
  arith, All, All-append, Text, codes, lookup,
}
use spike_broker.Text.{join, split, has_byte}
use spike_broker.Text.Split.{Free, split-join}
use spike_broker.Rids.Method.{Params, is_placeholder, update_params}
use spike_broker.Rids.Pattern.{
  Pattern, endpoint_name, endpoint_name_specific, fill_part, fill_parts, set_params,
}
use spike_broker.Rids.Fill.{
  Segment, lit, param, show, value, found_text, IsPlain, IsFilled, split-show,
}
use spike_broker.Rids.Shape.{
  IsShaped, whole-IsPlain, endpoint_name-whole, endpoint_name_specific-whole,
}
use spike_broker.Nats.Subject.{wildcards, replace_params, starts_part}

abbrev star : Segment → Text
star (lit t) = t
star (param name) = codes "*"

replace_params-append :
    (t u : Text) → Free b'$' t → replace_params false (t ++ u) ≡ t ++ replace_params false u
unfolding replace_params has_byte
replace_params-append [] u h = refl
replace_params-append (c ∷ t) u h = ground (arith, replace_params-append t u)

replace_params-inside :
    (t u : Text)
    → Free b'.' t
    → replace_params true (t ++ (b'.' ∷ u)) ≡ b'.' ∷ replace_params false u
unfolding replace_params has_byte
replace_params-inside [] u h = refl
replace_params-inside (c ∷ t) u h = ground (arith, replace_params-inside t u)

replace_params-inside_end : (t : Text) → Free b'.' t → replace_params true t ≡ []
unfolding replace_params has_byte
replace_params-inside_end [] h = refl
replace_params-inside_end (c ∷ t) h = ground (arith, replace_params-inside_end t)

replace_params_of_Free : (t : Text) → Free b'$' t → replace_params false t ≡ t
unfolding replace_params has_byte
replace_params_of_Free [] h = refl
replace_params_of_Free (c ∷ t) h = ground (arith, replace_params_of_Free t)

-- One part of an endpoint, in front of others and at the end.
replace_params-show :
    (s : Segment) (u : Text)
    → IsPlain s
    → replace_params false (show s ++ (b'.' ∷ u)) ≡ star s ++ (b'.' ∷ replace_params false u)
unfolding replace_params has_byte starts_part
replace_params-show (lit t) u p = replace_params-append t (b'.' ∷ u) p.0
replace_params-show (param []) u p = absurd (p.0 refl)
replace_params-show (param (c ∷ name)) u p = ground (arith, replace_params-inside name u)

replace_params-show_end : (s : Segment) → IsPlain s → replace_params false (show s) ≡ star s
unfolding replace_params has_byte starts_part
replace_params-show_end (lit t) p = replace_params_of_Free t p.0
replace_params-show_end (param []) p = absurd (p.0 refl)
replace_params-show_end (param (c ∷ name)) p = ground (arith, replace_params-inside_end name)

wildcards-join :
    (s : Segment) (segs : List Segment)
    → All IsPlain (s ∷ segs)
    → replace_params false (join b'.' (map show (s ∷ segs))) ≡ join b'.' (map star (s ∷ segs))
unfolding join
wildcards-join s [] h = replace_params-show_end s h.0
wildcards-join s (t ∷ segs) h =
    replace_params-show s (join b'.' (map show (t ∷ segs))) h.0
    ∙ ap (λ (u : Text). star s ++ (b'.' ∷ u)) (wildcards-join t segs h.1)

All-star : (segs : List Segment) → All IsPlain segs → All (Free b'.') (map star segs)
unfolding has_byte
All-star [] h = tt
All-star (lit t ∷ segs) h = (h.0.1, All-star segs h.1)
All-star (param name ∷ segs) h = (refl, All-star segs h.1)

-- A subject of a subscription, by its parts: each is a wildcard or the part that it stands for.
abbrev pub Covers : List Text → List Text → Type 0
Covers [] [] = Unit
Covers [] (u ∷ us) = ⊥
Covers (t ∷ ts) [] = ⊥
Covers (t ∷ ts) (u ∷ us) = ((t ≡ codes "*") ⊎ (t ≡ u)) × Covers ts us

Covers-star :
    (f : Segment → Text) (segs : List Segment)
    → ((t : Text) → f (lit t) ≡ t)
    → Covers (map star segs) (map f segs)
Covers-star f [] h = tt
Covers-star f (lit t ∷ segs) h = (inr (sym (h t)), Covers-star f segs h)
Covers-star f (param name ∷ segs) h = (inl refl, Covers-star f segs h)

-- A placeholder that has no parameter, or an empty one.
abbrev pub IsUnset : Params → Segment → Type 0
IsUnset m (lit t) = Unit
IsUnset m (param name) = found_text (lookup name m) ≡ []

-- A parameter that is one part of a subject.
abbrev pub IsPart : Params → Segment → Type 0
IsPart m (lit t) = Unit
IsPart m (param name) = Free b'.' (found_text (lookup name m))

fill_part_unset :
    (m : Params) (e : Text) (s : Segment) → IsPlain s → IsUnset m s → fill_part m e (show s) ≡ e
unfolding fill_part is_placeholder has_byte
fill_part_unset m e (lit t) p h = ground arith
fill_part_unset m e (param name) p h = go (lookup name m) refl
  where
    go : (o : Option Text) → lookup name m ≡ o → fill_part m e (b'$' ∷ name) ≡ e
    go none f = ground (arith, f)
    go (some v) f = ground (arith, f, h)

fill_parts_unset :
    (m : Params) (e : Text) (segs : List Segment)
    → All IsPlain segs
    → All (IsUnset m) segs
    → fill_parts m e (map show segs) ≡ e
unfolding fill_parts
fill_parts_unset m e [] p h = refl
fill_parts_unset m e (s ∷ segs) p h =
    ap (λ (x : Text). fill_parts m x (map show segs)) (fill_part_unset m e s p.0 h.0)
    ∙ fill_parts_unset m e segs p.1 h.1

All-value :
    (m : Params) (segs : List Segment)
    → All IsPlain segs
    → All (IsPart m) segs
    → All (Free b'.') (map (value m) segs)
All-value m [] p h = tt
All-value m (lit t ∷ segs) p h = (p.0.1, All-value m segs p.1 h.1)
All-value m (param name ∷ segs) p h = (h.0, All-value m segs p.1 h.1)

module _ (p : Pattern) (s : Segment) (segs : List Segment) (shape : IsShaped p s segs) where
  abbrev tail : List Segment
  tail = (s ∷ segs) ++ (lit p.method_value.http_method ∷ [])

  abbrev head : Segment
  head = lit p.method_value.service_name

  unset-name :
      All (IsUnset p.method_value.params) (s ∷ segs) → endpoint_name_specific p ≡ endpoint_name p
  unfolding endpoint_name_specific endpoint_name
  unset-name h =
      let m = p.method_value in
      let generic = join b'.' (map show (s ∷ segs)) in
      let full : fill_parts m.params generic (split b'.' generic) ≡ generic =
        ap (λ parts. fill_parts m.params generic parts) (split-show s segs shape.plain)
        ∙ fill_parts_unset m.params generic (s ∷ segs) shape.plain h in
      rw (shape.generic) (ground (arith, full))

  subscription-parts :
      All (IsUnset p.method_value.params) (s ∷ segs)
      → split b'.' (wildcards (endpoint_name_specific p)) ≡ map star (head ∷ tail)
  unfolding wildcards
  subscription-parts h =
      ap (λ (t : Text). split b'.' (replace_params false t))
        (unset-name h ∙ endpoint_name-whole p s segs shape)
      ∙ ap (split b'.') (wildcards-join head tail (whole-IsPlain p s segs shape))
      ∙ split-join b'.' (star head) (map star tail)
          (All-star (head ∷ tail) (whole-IsPlain p s segs shape))

  -- The pattern of a request or of an event: the parameters are set.
  value-parts :
      (m : Params)
      → All (IsFilled m) (s ∷ segs)
      → All (IsPart m) (s ∷ segs)
      → split b'.' (endpoint_name_specific (set_params m p)) ≡ map (value m) (head ∷ tail)
  unfolding set_params update_params
  value-parts m filled parts =
      let set : IsShaped (set_params m p) s segs = record {
        generic = shape.generic;
        named = shape.named;
        plain = shape.plain;
        distinct = shape.distinct;
        service = shape.service;
        verb = shape.verb;
      } in
      ap (split b'.') (endpoint_name_specific-whole (set_params m p) s segs set filled)
      ∙ split-join b'.' (value m head) (map (value m) tail) (
          All-value m (head ∷ tail) (whole-IsPlain p s segs shape)
            (tt, All-append (IsPart m) (s ∷ segs) _ parts (tt, tt)))

  name-parts : (m : Params) → split b'.' (endpoint_name (set_params m p)) ≡ map show (head ∷ tail)
  unfolding set_params update_params endpoint_name
  name-parts m =
      ap (split b'.') (endpoint_name-whole p s segs shape)
      ∙ split-show head tail (whole-IsPlain p s segs shape)

  -- The subject on which a handler subscribes, whose pattern has no parameters yet, covers part by
  -- part the subject of every request for that pattern and of every event of it, whatever its
  -- parameters: each part of the subscription is the wildcard or that of the message. The pattern
  -- is well formed, and the parameters are set, not empty, and hold no dot and no `$`.
  pub wildcards-Covers :
      (m : Params)
      → All (IsUnset p.method_value.params) (s ∷ segs)
      → All (IsFilled m) (s ∷ segs)
      → All (IsPart m) (s ∷ segs)
      → Covers
          (split b'.' (wildcards (endpoint_name_specific p)))
          (split b'.' (endpoint_name_specific (set_params m p)))
        × Covers
            (split b'.' (wildcards (endpoint_name_specific p)))
            (split b'.' (endpoint_name (set_params m p)))
  wildcards-Covers m unset filled parts =
      rw (subscription-parts unset, value-parts m filled parts, name-parts m)
        (
          Covers-star (value m) (head ∷ tail) (λ t. refl),
          Covers-star show (head ∷ tail) (λ t. refl),
        )
