-- ===== src/Rids/Shape.antt =====
-- Patterns as services declare them (v2/pkg/rids/pattern.go), by the segments of their endpoint:
-- what `EndpointName` and `EndpointNameSpecific` give for them.
use mathlib.Core.List.{append_assoc, map-append}
use spike_broker.Prelude.{
  ◌≡◌, refl, sym, ap, ◌∙◌, ◌≢◌, List, [], ◌∷◌, ◌++◌, map, arith, All, All-append, Text,
}
use spike_broker.Text.{join}
use spike_broker.Rids.Pattern.{Pattern, endpoint_name, endpoint_name_specific}
use spike_broker.Rids.Fill.{
  Segment, lit, param, show, value, IsPlain, IsFilled, endpoint_name_specific-value, join-ne-nil,
}

abbrev pub Unused : Text → Segment → Type 0
Unused name (lit t) = Unit
Unused name (param n) = n ≢ name

-- No placeholder stands twice.
abbrev pub IsDistinct : List Segment → Type 0
IsDistinct [] = Unit
IsDistinct (lit t ∷ segs) = IsDistinct segs
IsDistinct (param n ∷ segs) = All (Unused n) segs × IsDistinct segs

-- The name of such a pattern by its segments, service and method included.
abbrev pub whole : Pattern → List Segment → List Segment
whole p segs = lit p.method_value.service_name ∷ (segs ++ (lit p.method_value.http_method ∷ []))

-- A pattern whose endpoint has the given segments, as the services declare them.
pub record IsShaped (p : Pattern) (s : Segment) (segs : List Segment) : Type 0 where
  pub generic : p.method_value.generic_endpoint ≡ join b'.' (map show (s ∷ segs))
  pub named : show s ≢ []
  pub plain : All IsPlain (s ∷ segs)
  pub distinct : IsDistinct (s ∷ segs)
  pub service : IsPlain (lit p.method_value.service_name)
  pub verb : IsPlain (lit p.method_value.http_method)

join_last :
    (x : Text) (xs : List Text) (b : Text)
    → join b'.' (x ∷ (xs ++ (b ∷ []))) ≡ join b'.' (x ∷ xs) ++ (b'.' ∷ b)
unfolding join
join_last x [] b = refl
join_last x (y ∷ xs) b =
    ap (λ r. x ++ (b'.' ∷ r)) (join_last y xs b)
    ∙ sym (append_assoc x (b'.' ∷ join b'.' (y ∷ xs)) (b'.' ∷ b))

pub join_whole :
    (f : Segment → Text) (p : Pattern) (s : Segment) (segs : List Segment)
    → ((t : Text) → f (lit t) ≡ t)
    → join b'.' (map f (whole p (s ∷ segs)))
      ≡ p.method_value.service_name
        ++ (b'.' ∷ (join b'.' (map f (s ∷ segs)) ++ (b'.' ∷ p.method_value.http_method)))
join_whole f p s segs lits =
    let m = p.method_value in
    ap (λ parts. join b'.' (f (lit m.service_name) ∷ (f s ∷ parts)))
      (map-append f segs (lit m.http_method ∷ []))
    ∙ unfold join in
      (ap (λ r. f (lit m.service_name) ++ (b'.' ∷ r))
          (join_last (f s) (map f segs) (f (lit m.http_method)))
        ∙ rw (lits m.service_name, lits m.http_method))

module _ (p : Pattern) (s : Segment) (segs : List Segment) (shape : IsShaped p s segs) where
  pub whole-IsPlain : All IsPlain (whole p (s ∷ segs))
  whole-IsPlain = (shape.service, All-append IsPlain (s ∷ segs) _ shape.plain (shape.verb, tt))

  pub endpoint_name-whole : endpoint_name p ≡ join b'.' (map show (whole p (s ∷ segs)))
  unfolding endpoint_name
  endpoint_name-whole =
      let m = p.method_value in
      rw (join_whole show p s segs (λ t. refl), shape.generic)
        (ground (arith, join-ne-nil s segs shape.named))

  -- Where all parameters are set, the specific name is made of their values.
  pub endpoint_name_specific-whole :
      All (IsFilled p.method_value.params) (s ∷ segs)
      → endpoint_name_specific p
        ≡ join b'.' (map (value p.method_value.params) (whole p (s ∷ segs)))
  endpoint_name_specific-whole filled =
      endpoint_name_specific-value p s segs shape.generic shape.named shape.plain filled
      ∙ sym (join_whole (value p.method_value.params) p s segs (λ t. refl))
