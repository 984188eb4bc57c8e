-- ===== src/Socket/Endpoint/Found.antt =====
-- What `PatternFromEndpoint` returns (v2/pkg/spike/socket/utils.go): its specific name is the
-- endpoint that the client asked for.
use spike_broker.Prelude.{
  suc, ◌≡◌, refl, sym, ap, ◌∙◌, ◌≢◌, inl, inr, true, false, some, List, [], ◌∷◌, ◌++◌, map, arith,
  Option-cases, length, All, All-append, All-left, Text, codes, text_eq_refl, text_eq_iff,
  text_eq_ne, lookup, insert, lookup-insert,
}
use spike_broker.Text.{split, join, has_byte, has_prefix}
use spike_broker.Text.Split.{Free, join-split}
use spike_broker.Rids.Method.{Params, update_params}
use spike_broker.Rids.Pattern.{
  Pattern, query, set_params, clone, endpoint_name, endpoint_name_specific, new_pattern,
}
use spike_broker.Rids.Fill.{
  Segment, lit, param, show, value, IsPlain, IsFilled, endpoint_name_specific-value, split-show,
}
use spike_broker.Rids.Shape.{
  Unused, IsDistinct, whole, IsShaped, join_whole, whole-IsPlain, endpoint_name-whole,
}
use spike_broker.Socket.Endpoint.{
  match_parts, match_pattern, find_pattern, pattern_from_endpoint, found, head_text, instantiate,
}

length-map {ℓ κ} :
    {A : Type ℓ} {B : Type κ} (f : A → B) (xs : List A) → length (map f xs) ≡ length xs
length-map f [] = refl
length-map f (x ∷ xs) = ap suc (length-map f xs)

-- A part of a client's endpoint that is a plain value: no empty text, no wildcard, no `$`.
abbrev pub IsClean : Text → Type 0
IsClean t = (t ≢ []) × Free b'$' t × (t ≢ codes "*")

dollar_prefix : (t : Text) → Free b'$' t → has_prefix t (codes "$") ≡ false
unfolding has_prefix has_byte
dollar_prefix [] h = refl
dollar_prefix (c ∷ t) h = ground arith

has_dollar : (t : Text) → has_prefix (b'$' ∷ t) (codes "$") ≡ true
unfolding has_prefix
has_dollar [] = refl
has_dollar (c ∷ t) = refl

match_parts-lit :
    (t e : Text) (ps es : List Text) (m : Params) {m' : Params}
    → Free b'$' t
    → match_parts (t ∷ ps) (e ∷ es) m ≡ some m'
    → (t ≡ e) × (match_parts ps es m ≡ some m')
unfolding match_parts
match_parts-lit t e ps es m h k = ground (arith, dollar_prefix t h, text_eq_iff t e)

match_parts-param :
    (name e : Text) (ps es : List Text) (m : Params) {m' : Params}
    → e ≢ codes "*"
    → match_parts ((b'$' ∷ name) ∷ ps) (e ∷ es) m ≡ some m'
    → match_parts ps es (insert name e m) ≡ some m'
unfolding match_parts
match_parts-param name e ps es m h k = ground (arith, has_dollar name, text_eq_ne e (codes "*") h)

-- A parameter that no placeholder names stays as it was.
match_parts-lookup :
    (name : Text) (segs : List Segment) (es : List Text) (m : Params) {m' : Params}
    → All (Unused name) segs
    → All IsPlain segs
    → All IsClean es
    → match_parts (map show segs) es m ≡ some m'
    → lookup name m' ≡ lookup name m
match_parts-lookup name [] es m u p c h = unfold match_parts in cc
match_parts-lookup name (s ∷ segs) [] m u p c h = unfold match_parts in cc
match_parts-lookup name (lit t ∷ segs) (e ∷ es) m u p c h =
    match_parts-lookup name segs es m u.1 p.1 c.1 (match_parts-lit t e _ es m p.0.0 h).1
match_parts-lookup name (param n ∷ segs) (e ∷ es) m u p c h =
    match_parts-lookup name segs es (insert n e m) u.1 p.1 c.1
      (match_parts-param n e _ es m c.0.2 h)
    ∙ rw (lookup-insert, text_eq_ne n name u.0)

-- The parameters that a match collects give back the parts that were matched.
match_parts-value :
    (segs : List Segment) (es : List Text) (m : Params) {m' : Params}
    → length segs ≡ length es
    → IsDistinct segs
    → All IsPlain segs
    → All IsClean es
    → match_parts (map show segs) es m ≡ some m'
    → (map (value m') segs ≡ es) × All (IsFilled m') segs
match_parts-value [] [] m len d p c h = (refl, tt)
match_parts-value [] (e ∷ es) m len d p c h = absurd (omega arith)
match_parts-value (s ∷ segs) [] m len d p c h = absurd (omega arith)
match_parts-value (lit t ∷ segs) (e ∷ es) m len d p c h =
    let (same, rest) = match_parts-lit t e (map show segs) es m p.0.0 h in
    let (values, filled) = match_parts-value segs es m (omega arith) d p.1 c.1 rest in
    (cc, (tt, filled))
match_parts-value (param n ∷ segs) (e ∷ es) m {m'} len d p c h =
    let rest = match_parts-param n e (map show segs) es m c.0.2 h in
    let (values, filled) =
      match_parts-value segs es (insert n e m) (omega arith) d.1 p.1 c.1 rest in
    let kept : lookup n m' ≡ some e =
      match_parts-lookup n segs es (insert n e m) d.0 p.1 c.1 rest
      ∙ rw (lookup-insert, text_eq_refl n) in
    (rw kept (ap (λ r. e ∷ r) values), ((e, kept, c.0.0, c.0.1), filled))

IsDistinct-append :
    (segs : List Segment) (t : Text) → IsDistinct segs → IsDistinct (segs ++ (lit t ∷ []))
IsDistinct-append [] t h = tt
IsDistinct-append (lit x ∷ segs) t h = IsDistinct-append segs t h
IsDistinct-append (param n ∷ segs) t h =
    (All-append (Unused n) segs (lit t ∷ []) h.0 (tt, tt), IsDistinct-append segs t h.1)

module _ (p : Pattern) (s : Segment) (segs : List Segment) (shape : IsShaped p s segs) where
  name_parts : split b'.' (endpoint_name p) ≡ map show (whole p (s ∷ segs))
  name_parts =
      ap (split b'.') (endpoint_name-whole p s segs shape)
      ∙ split-show (lit p.method_value.service_name)
          ((s ∷ segs) ++ (lit p.method_value.http_method ∷ [])) (whole-IsPlain p s segs shape)

  match_pattern-parts :
      (es : List Text) {params : Params}
      → match_pattern es p ≡ some params
      → (length (whole p (s ∷ segs)) ≡ length es)
        × (match_parts (map show (whole p (s ∷ segs))) es [] ≡ some params)
  unfolding match_pattern
  match_pattern-parts es h =
      let k = rw name_parts at h in ground (arith, length-map show (whole p (s ∷ segs)))

  -- What the loop over one pattern finds fills that pattern with the parts of the endpoint.
  match_pattern-names :
      (es : List Text) (params : Params)
      → All IsClean es
      → match_pattern es p ≡ some params
      → endpoint_name_specific (set_params params p) ≡ join b'.' es
  match_pattern-names es params clean h =
      let (len, matched) = match_pattern-parts es h in
      let (values, filled) =
        match_parts-value (whole p (s ∷ segs)) es [] len
          (IsDistinct-append (s ∷ segs) p.method_value.http_method shape.distinct)
          (whole-IsPlain p s segs shape) clean matched in
      unfold set_params update_params in
      (endpoint_name_specific-value (set_params params p) s segs shape.generic shape.named
          shape.plain (All-left (IsFilled params) (s ∷ segs) _ filled.1)
        ∙ sym (join_whole (value params) p s segs (λ t. refl))
        ∙ ap (join b'.') values)

-- The name does not depend on the query, and a clone has the name of its pattern.
specific-instantiate :
    (qs : List Text) (params : Params) (p : Pattern)
    → endpoint_name_specific (instantiate qs params p)
      ≡ endpoint_name_specific (set_params params p)
unfolding instantiate endpoint_name_specific set_params update_params clone query new_pattern
    endpoint_name
specific-instantiate [] params p = refl
specific-instantiate (q ∷ []) params p = refl
specific-instantiate (q ∷ r ∷ qs) params p = refl

abbrev pub HasShape : Pattern → Type 0
HasShape p = (s : Segment) × (segs : List Segment) × IsShaped p s segs

find_pattern-names :
    (qs es : List Text) (patterns : List Pattern) (q : Pattern)
    → All HasShape patterns
    → All IsClean es
    → find_pattern qs es patterns ≡ some q
    → endpoint_name_specific q ≡ join b'.' es
unfolding find_pattern
find_pattern-names qs es [] q shapes clean h = cc
find_pattern-names qs es (p ∷ ps) q shapes clean h = elim (Option-cases (match_pattern es p)) [
  | inl missed ↦ find_pattern-names qs es ps q shapes.1 clean (rw (missed, find_pattern) at h)
  | inr (params, matched) ↦
      let result : some (instantiate qs params p) ≡ some q = rw (matched, find_pattern) at h in
      let same : instantiate qs params p ≡ q = cc in
      let (s, segs, shape) = shapes.0 in
      ap endpoint_name_specific (sym same)
      ∙ specific-instantiate qs params p
      ∙ match_pattern-names p s segs shape es params clean matched
]

-- The pattern that is found has the client's endpoint, without its query, for its specific name.
-- The patterns are well formed and name no placeholder twice, and no part of the endpoint is
-- empty, the wildcard, or holds a `$`.
pub pattern_from_endpoint-names :
    (patterns : List Pattern) (endpoint : Text) (q : Pattern)
    → All HasShape patterns
    → All IsClean (split b'.' (head_text (split b'?' endpoint)))
    → pattern_from_endpoint patterns endpoint ≡ found q
    → endpoint_name_specific q ≡ head_text (split b'?' endpoint)
unfolding pattern_from_endpoint
pattern_from_endpoint-names patterns endpoint q shapes clean h =
    let path = head_text (split b'?' endpoint) in
    let ok : find_pattern (split b'?' endpoint) (split b'.' path) patterns ≡ some q =
      ground arith in
    find_pattern-names (split b'?' endpoint) (split b'.' path) patterns q shapes clean ok
    ∙ join-split b'.' path
