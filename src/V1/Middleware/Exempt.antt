-- ===== src/V1/Middleware/Exempt.antt =====
-- Which requests pkg/route/handlers/auth-middleware.go lets pass without a token.
use spike_broker.Prelude.{
  ◌≡◌, refl, sym, ap, ◌∙◌, ◌↔◌, ◌⊎◌, inl, inr, Bool, true, false, not, ◌&&◌, ◌||◌, List, [], ◌∷◌,
  arith, Bool-cases, length, All, Text, codes, text_eq, text_eq_iff,
}
use spike_broker.Text.{split, join, has_byte, has_prefix}
use spike_broker.Text.Split.{Free, All-push_head}
use spike_broker.V1.Middleware.Joined.{join-injective}
use spike_broker.V1.Rids.{Pattern, endpoint_no_method}
use spike_broker.V1.Middleware.{
  RestRequest, slashes, rest_path, overwrite, same_parts, exempts, is_exempt,
}

-- Part by part, a parameter stands for anything, and any other part for itself.
abbrev pub Matches : List Text → List Text → Type 0
Matches [] [] = Unit {0}
Matches (e ∷ es) (r ∷ rs) = ((has_prefix e (codes "$") ≡ true) ⊎ (e ≡ r)) × Matches es rs
Matches es rs = ⊥

length-overwrite : (es rs : List Text) → length (overwrite es rs) ≡ length rs
unfolding overwrite
length-overwrite [] rs = refl
length-overwrite (e ∷ es) [] = refl
length-overwrite (e ∷ es) (r ∷ rs) = ground (arith, length-overwrite es rs)

overwrite-Matches :
    (es rs : List Text) → length es ≡ length rs → overwrite es rs ≡ es → Matches es rs
unfolding overwrite
overwrite-Matches [] [] h k = tt
overwrite-Matches [] (r ∷ rs) h k = absurd (omega (arith, h))
overwrite-Matches (e ∷ es) [] h k = absurd (omega (arith, h))
overwrite-Matches (e ∷ es) (r ∷ rs) h k = elim (Bool-cases (has_prefix e (codes "$"))) [
  | inl free ↦ (inl free, overwrite-Matches es rs (omega (arith, h)) (ground (arith, k, free)))
  | inr fixed ↦ elim (Bool-cases (text_eq e r)) [
    | inl same ↦ (
      inr ((text_eq_iff e r).0 same),
      overwrite-Matches es rs (omega (arith, h)) (ground (arith, k, fixed, same)),
    )
    | inr other ↦ absurd (ground (arith, k, fixed, other, text_eq_iff e r))
  ]
]

Matches-overwrite : (es rs : List Text) → Matches es rs → overwrite es rs ≡ es
unfolding overwrite
Matches-overwrite [] [] h = refl
Matches-overwrite [] (r ∷ rs) h = absurd h
Matches-overwrite (e ∷ es) [] h = absurd h
Matches-overwrite (e ∷ es) (r ∷ rs) h =
    let rest = Matches-overwrite es rs h.1 in
    elim h.0 [
      | inl free ↦ ground (arith, free, rest)
      | inr same ↦ ground (arith, rest, text_eq_iff e r)
    ]

length-Matches : (es rs : List Text) → Matches es rs → length es ≡ length rs
length-Matches [] [] h = refl
length-Matches [] (r ∷ rs) h = absurd h
length-Matches (e ∷ es) [] h = absurd h
length-Matches (e ∷ es) (r ∷ rs) h = omega (arith, length-Matches es rs h.1)

same_parts-Matches :
    (es rs : List Text) → All (Free b'.') es → (same_parts es rs ≡ true) ↔ Matches es rs
unfolding same_parts
same_parts-Matches es rs k = (
  λ e.
      let long : length es ≡ length rs = ground (arith, e) in
      overwrite-Matches es rs long (
        join-injective (overwrite es rs) es (length-overwrite es rs ∙ sym long) k
          ((text_eq_iff (join b'.' (overwrite es rs)) (join b'.' es)).0 (ground (arith, e)))),
  λ m.
      let same = Matches-overwrite es rs m in
      ground (
        arith,
        length-Matches es rs m,
        text_eq_iff (join b'.' (overwrite es rs)) (join b'.' es),
        ap (join b'.') same,
      ),
)

slashes-Free : (s : Text) → Free b'.' (slashes s)
unfolding slashes has_byte
slashes-Free [] = refl
slashes-Free (c ∷ s) = ground (arith, slashes-Free s)

rest_path-Free : (p : Pattern) → Free b'.' (rest_path p)
unfolding rest_path has_byte
rest_path-Free p = ground (arith, slashes-Free (endpoint_no_method p))

-- The parts of a text without dots have none.
split_parts-Free : (s : Text) → Free b'.' s → All (Free b'.') (split b'/' s)
unfolding split has_byte
split_parts-Free [] h = (refl, tt)
split_parts-Free (c ∷ s) h =
    let rest = split_parts-Free s (ground (arith, h)) in
    ground (arith, rest, All-push_head b'.' c (split b'/' s) (ground (arith, h)) rest)

-- What an exemption is: the endpoint needs no authentication, and either path and method are its
-- own, or it has a parameter and the path has its form, whatever the method.
abbrev pub Exempts : RestRequest → Pattern → Type 0
Exempts r p =
    (p.authenticated ≡ false)
    × (((r.path ≡ rest_path p) × (r.verb ≡ p.method))
        ⊎ ((has_byte b'$' (endpoint_no_method p) ≡ true)
            × Matches (split b'/' (rest_path p)) (split b'/' r.path)))

abbrev pub AnyOf : (Pattern → Type 0) → List Pattern → Type 0
AnyOf P [] = ⊥
AnyOf P (p ∷ ps) = P p ⊎ AnyOf P ps

and_parts : (a b : Bool) → (a && b) ≡ true → (a ≡ true) × (b ≡ true)
and_parts true b h = (refl, h)
and_parts false b h = absurd (ground (arith, h))

or_parts : (a b : Bool) → (a || b) ≡ true → (a ≡ true) ⊎ (b ≡ true)
or_parts true b h = inl refl
or_parts false b h = inr h

exempts-Exempts : (r : RestRequest) (p : Pattern) → (exempts r p ≡ true) ↔ Exempts r p
unfolding exempts
exempts-Exempts r p =
    let path_iff = text_eq_iff r.path (rest_path p) in
    let verb_iff = text_eq_iff r.verb p.method in
    let parts_iff =
      same_parts-Matches (split b'/' (rest_path p)) (split b'/' r.path)
        (split_parts-Free (rest_path p) (rest_path-Free p)) in
    let literal = text_eq r.path (rest_path p) && text_eq r.verb p.method in
    let formed =
      has_byte b'$' (endpoint_no_method p)
      && same_parts (split b'/' (rest_path p)) (split b'/' r.path) in
    (
      λ h.
          let (bare, form) = and_parts (not p.authenticated) (literal || formed) h in
          (
            ground (arith, bare),
            elim (or_parts literal formed form) [
              | inl own ↦
                  let (x, y) =
                    and_parts (text_eq r.path (rest_path p)) (text_eq r.verb p.method) own in
                  inl (path_iff.0 x, verb_iff.0 y)
              | inr x ↦
                  let (y, z) =
                    and_parts (has_byte b'$' (endpoint_no_method p))
                      (same_parts (split b'/' (rest_path p)) (split b'/' r.path)) x in
                  inr (y, parts_iff.0 z)
            ],
          ),
      λ x. elim x.1 [
        | inl own ↦ ground (arith, x.0, path_iff.1 own.0, verb_iff.1 own.1)
        | inr form ↦ ground (arith, x.0, form.0, parts_iff.1 form.1)
      ],
    )

-- A request passes without a token exactly if some pattern of the service exempts it.
pub is_exempt-AnyOf :
    (r : RestRequest) (ps : List Pattern) → (is_exempt r ps ≡ true) ↔ AnyOf (Exempts r) ps
unfolding is_exempt
is_exempt-AnyOf r [] = ((λ e. absurd (ground (arith, e))), (λ e. absurd e))
is_exempt-AnyOf r (p ∷ ps) =
    let one = exempts-Exempts r p in
    let rest = is_exempt-AnyOf r ps in
    elim (Bool-cases (exempts r p)) [
      | inl free ↦ ((λ e. inl (one.0 free)), (λ e. ground (arith, free)))
      | inr bound ↦ (
        (λ e. inr (rest.0 (ground (arith, e, bound)))),
        (λ e. elim e [
          | inl x ↦ absurd (ground (arith, bound, one.1 x))
          | inr x ↦ ground (arith, bound, rest.1 x)
        ]),
      )
    ]
