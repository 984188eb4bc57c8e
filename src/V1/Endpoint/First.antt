-- ===== src/V1/Endpoint/First.antt =====
-- Which pattern PatternFromEndpoint of pkg/utils/utils.go finds.
use spike_broker.Prelude.{
  ◌≡◌, refl, ◌≢◌, inl, inr, Option, none, some, List, [], ◌∷◌, arith, Bool-cases, Option-cases,
  drop, All, Text, codes, text_eq, text_eq_iff, Dict, insert,
}
use spike_broker.Text.{split, has_prefix}
use spike_broker.V1.Rids.{Pattern}
use spike_broker.V1.Middleware.Exempt.{Matches}
use spike_broker.V1.Endpoint.{match_parts, match_pattern, find_pattern, pattern_from_endpoint}

-- The pattern has the client's method, and part by part its endpoint.
abbrev pub Names : List Text → Text → Pattern → Type 0
Names es verb p = Matches (split b'.' p.endpoint_no_params) es × (p.method ≡ verb)

-- The first pattern of a list that the client names.
pub data First (es : List Text) (verb : Text) : List Pattern → Pattern → Type 0 where
  here : {p : Pattern} {ps : List Pattern} → Names es verb p → First es verb (p ∷ ps) p
  later :
      {p q : Pattern} {ps : List Pattern}
      → ¬ Names es verb p
      → First es verb ps q
      → First es verb (p ∷ ps) q

pub First-ne-nil :
    (es : List Text) (verb : Text) (ps : List Pattern) (p : Pattern) → First es verb ps p → ps ≢ []
First-ne-nil es verb _ p (here named) = λ e. cc
First-ne-nil es verb _ p (later unnamed first) = λ e. cc

match_parts-Matches :
    (ps es : List Text) (m n : Dict Text) → match_parts ps es m ≡ some n → Matches ps es
unfolding match_parts
match_parts-Matches [] [] m n h = tt
match_parts-Matches [] (e ∷ es) m n h = absurd (ground (arith, h))
match_parts-Matches (p ∷ ps) [] m n h = absurd (ground (arith, h))
match_parts-Matches (p ∷ ps) (e ∷ es) m n h = elim (Bool-cases (has_prefix p (codes "$"))) [
  | inl free ↦ (inl free, match_parts-Matches ps es (insert (drop 1 p) e m) n (rw free at h))
  | inr fixed ↦ elim (Bool-cases (text_eq p e)) [
    | inl same ↦
        (inr ((text_eq_iff p e).0 same), match_parts-Matches ps es m n (rw (fixed, same) at h))
    | inr other ↦ absurd (ground (arith, h, fixed, other))
  ]
]

Matches-match_parts :
    (ps es : List Text) (m : Dict Text)
    → Matches ps es
    → (n : Dict Text) × (match_parts ps es m ≡ some n)
unfolding match_parts
Matches-match_parts [] [] m h = (m, refl)
Matches-match_parts [] (e ∷ es) m h = absurd h
Matches-match_parts (p ∷ ps) [] m h = absurd h
Matches-match_parts (p ∷ ps) (e ∷ es) m h = elim (Bool-cases (has_prefix p (codes "$"))) [
  | inl free ↦
      let (n, got) = Matches-match_parts ps es (insert (drop 1 p) e m) h.1 in
      (n, ground (arith, free, got))
  | inr fixed ↦ elim h.0 [
    | inl free ↦ absurd (ground (arith, fixed, free))
    | inr same ↦
        let (n, got) = Matches-match_parts ps es m h.1 in
        (n, ground (arith, fixed, got, (text_eq_iff p e).1 same))
  ]
]

match_pattern-Names :
    (es : List Text) (verb : Text) (p : Pattern) (n : Dict Text)
    → match_pattern es verb p ≡ some n
    → Names es verb p
unfolding match_pattern
match_pattern-Names es verb p n h =
    let parts = split b'.' p.endpoint_no_params in
    elim (Option-cases (match_parts parts es [])) [
      | inl nothing ↦ absurd (ground (arith, h, nothing))
      | inr (m, got) ↦
          (match_parts-Matches parts es [] m got, ground (arith, h, got, text_eq_iff p.method verb))
    ]

match_pattern-none :
    (es : List Text) (verb : Text) (p : Pattern)
    → match_pattern es verb p ≡ none
    → ¬ Names es verb p
unfolding match_pattern
match_pattern-none es verb p h (parts, same) =
    let (n, got) = Matches-match_parts (split b'.' p.endpoint_no_params) es [] parts in
    absurd (ground (arith, h, got, (text_eq_iff p.method verb).1 same))

-- Nothing is found where the client names no pattern; else a copy of the first one, with the
-- parameters of the client.
pub data Finds (es : List Text) (verb : Text) (ps : List Pattern) : Option Pattern → Type 0 where
  missing : All (λ p. ¬ Names es verb p) ps → Finds es verb ps none
  found :
      {p : Pattern} (m : Dict Text)
      → First es verb ps p
      → Finds es verb ps (some (record p { params = m }))

Finds-later :
    (es : List Text) (verb : Text) (p : Pattern) (ps : List Pattern) (o : Option Pattern)
    → ¬ Names es verb p
    → Finds es verb ps o
    → Finds es verb (p ∷ ps) o
Finds-later es verb p ps _ unnamed (missing none_named) = missing (unnamed, none_named)
Finds-later es verb p ps _ unnamed (found m first) = found m (later unnamed first)

find_pattern-Finds :
    (es : List Text) (verb : Text) (ps : List Pattern) → Finds es verb ps (find_pattern es verb ps)
unfolding find_pattern
find_pattern-Finds es verb [] = missing tt
find_pattern-Finds es verb (p ∷ ps) = elim (Option-cases (match_pattern es verb p)) [
  | inl nothing ↦
      rw (find_pattern, nothing)
        (Finds-later es verb p ps (find_pattern es verb ps) (match_pattern-none es verb p nothing)
          (find_pattern-Finds es verb ps))
  | inr (m, got) ↦ rw (find_pattern, got) (found m (here (match_pattern-Names es verb p m got)))
]

-- PatternFromEndpoint gives the first pattern of the list that has the client's method and, part by
-- part, its endpoint, where a parameter stands for any part; and none exactly if there is none.
pub pattern_from_endpoint-Finds :
    (ps : List Pattern) (endpoint verb : Text)
    → Finds (split b'.' endpoint) verb ps (pattern_from_endpoint ps endpoint verb)
unfolding pattern_from_endpoint
pattern_from_endpoint-Finds ps endpoint verb = find_pattern-Finds (split b'.' endpoint) verb ps
