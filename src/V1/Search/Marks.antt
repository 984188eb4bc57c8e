-- ===== src/V1/Search/Marks.antt =====
-- When `Search` of pkg/service/request/request.go panics.
use spike_broker.Prelude.{
  ℕ, suc, ◌+◌, ◌≤◌, ◌<◌, ◌≡◌, refl, ◌∙◌, ◌↔◌, inl, inr, true, none, some, List, [], ◌∷◌, ◌++◌,
  arith, ltb, ◌==◌, if◌then◌else◌, Bool-cases, length, is_empty, Text, codes,
}
use spike_broker.Text.{split, has_byte, has_prefix, replace_first, push_head}
use spike_broker.V1.Search.{
  join_text, likes, condition, conditions, quoted, repeated, words_params, fill, search,
}

-- The question marks of a text, and of several.
abbrev pub marks : Text → ℕ
marks [] = 0
marks (c ∷ s) = let rest = marks s in if c == b'?' then suc rest else rest

abbrev pub all_marks : List Text → ℕ
all_marks [] = 0
all_marks (s ∷ ss) = marks s + all_marks ss

marks-append : (s t : Text) → marks (s ++ t) ≡ marks s + marks t
marks-append [] t = omega arith
marks-append (c ∷ s) t = ground (arith, marks-append s t)

has_byte-marks : (s : Text) → has_byte b'?' s ≡ ltb 0 (marks s)
unfolding has_byte
has_byte-marks [] = refl
has_byte-marks (c ∷ s) = ground (arith, has_byte-marks s)

marks-replace_first :
    (s w : Text) → 0 < marks s → suc (marks (replace_first s (codes "?") w)) ≡ marks s + marks w
unfolding replace_first has_prefix
marks-replace_first [] w h = absurd (omega (arith, h))
marks-replace_first (c ∷ s) w h = ground (arith, marks-replace_first s w, marks-append w s)

-- The loop panics once the marks are more than the parameters, those in the parameters counted.
fill-none :
    (ws : List Text) (s : Text)
    → length ws ≤ marks s
    → length ws < marks s + all_marks ws
    → fill ws s ≡ none
unfolding fill
fill-none [] s h k = ground (arith, has_byte-marks s)
fill-none (w ∷ ws) s h k =
    let less = marks-replace_first s w (omega arith) in
    let later = fill-none ws (replace_first s (codes "?") w) (omega arith) (omega arith) in
    ground (arith, has_byte-marks s, later)

fill-some :
    (ws : List Text) (s : Text)
    → length ws ≡ marks s
    → all_marks ws ≡ 0
    → (t : Text) × (fill ws s ≡ some t)
unfolding fill
fill-some [] s h k = (s, ground (arith, has_byte-marks s))
fill-some (w ∷ ws) s h k =
    let less = marks-replace_first s w (omega arith) in
    let (t, later) = fill-some ws (replace_first s (codes "?") w) (omega arith) (omega arith) in
    (t, ground (arith, has_byte-marks s, later))

marks-join_text :
    (sep : Text) (xs : List Text) → marks sep ≡ 0 → marks (join_text sep xs) ≡ all_marks xs
unfolding join_text
marks-join_text sep [] h = refl
marks-join_text sep (x ∷ []) h = omega arith
marks-join_text sep (x ∷ y ∷ ys) h =
    let rest = marks-join_text sep (y ∷ ys) h in
    let outer = marks-append x (sep ++ join_text sep (y ∷ ys)) in
    let inner = marks-append sep (join_text sep (y ∷ ys)) in omega arith

all_marks-likes : (cs : List Text) → all_marks (likes cs) ≡ length cs + all_marks cs
unfolding likes
all_marks-likes [] = omega arith
all_marks-likes (c ∷ cs) =
    let rest = all_marks-likes cs in let one = marks-append c (codes " LIKE ?") in omega arith

marks-condition : (cs : List Text) → marks (condition cs) ≡ length cs + all_marks cs
unfolding condition
marks-condition cs =
    let joined = marks-join_text (codes " OR ") (likes cs) refl in
    let one = marks-append (join_text (codes " OR ") (likes cs)) (codes ")") in
    let counted = all_marks-likes cs in omega arith

length-repeated :
    (cs : List Text) (w : Text) (rest : List Text)
    → length (repeated cs w rest) ≡ length cs + length rest
unfolding repeated
length-repeated [] w rest = omega arith
length-repeated (c ∷ cs) w rest = let more = length-repeated cs w rest in omega arith

-- There are as many parameters as placeholders.
all_marks-conditions :
    (cs ws : List Text)
    → all_marks cs ≡ 0
    → all_marks (conditions cs ws) ≡ length (words_params cs ws)
unfolding conditions words_params
all_marks-conditions cs [] h = refl
all_marks-conditions cs (w ∷ ws) h =
    let rest = all_marks-conditions cs ws h in
    let one = marks-condition cs in
    let more = length-repeated cs w (words_params cs ws) in omega arith

marks-quoted : (w : Text) → marks (quoted w) ≡ marks w
marks-quoted w = let one = marks-append w (codes "%'") in omega arith

all_marks-repeated_none :
    (cs : List Text) (w : Text) (rest : List Text)
    → marks w ≡ 0
    → all_marks (repeated cs w rest) ≡ all_marks rest
unfolding repeated
all_marks-repeated_none [] w rest h = refl
all_marks-repeated_none (c ∷ cs) w rest h =
    let more = all_marks-repeated_none cs w rest h in let one = marks-quoted w in omega arith

all_marks-repeated :
    (cs : List Text) (w : Text) (rest : List Text) → all_marks rest ≤ all_marks (repeated cs w rest)
unfolding repeated
all_marks-repeated [] w rest = omega arith
all_marks-repeated (c ∷ cs) w rest = let more = all_marks-repeated cs w rest in omega arith

all_marks-words_params_none :
    (cs ws : List Text) → all_marks ws ≡ 0 → all_marks (words_params cs ws) ≡ 0
unfolding words_params
all_marks-words_params_none cs [] h = refl
all_marks-words_params_none cs (w ∷ ws) h =
    let rest = all_marks-words_params_none cs ws (omega arith) in
    let one = all_marks-repeated_none cs w (words_params cs ws) (omega arith) in omega arith

all_marks-words_params :
    (c : Text) (cs ws : List Text) → 0 < all_marks ws → 0 < all_marks (words_params (c ∷ cs) ws)
unfolding words_params repeated
all_marks-words_params c cs [] h = absurd (omega arith)
all_marks-words_params c cs (w ∷ ws) h =
    let more = all_marks-repeated cs w (words_params (c ∷ cs) ws) in
    let one = marks-quoted w in
    elim (Bool-cases (ltb 0 (all_marks ws))) [
      | inl later ↦ let rest = all_marks-words_params c cs ws (ground (arith, later)) in omega arith
      | inr none_later ↦ ground (arith, none_later)
    ]

all_marks-push_head :
    (c : ℕ) (xs : List Text) → all_marks (push_head c xs) ≡ marks (c ∷ []) + all_marks xs
all_marks-push_head c [] = omega arith
all_marks-push_head c (x ∷ xs) = ground arith

all_marks-split : (s : Text) → all_marks (split b' ' s) ≡ marks s
unfolding split
all_marks-split [] = refl
all_marks-split (c ∷ s) = ground (arith, all_marks-split s, all_marks-push_head c (split b' ' s))

module _ (c : Text) (cs : List Text) (text : Text) where
  abbrev where_text : Text
  where_text =
      codes "deleted_at IS NULL AND ("
      ++ (join_text (codes " AND ") (conditions (c ∷ cs) (split b' ' text)) ++ codes ")")

  marks-where_text :
      all_marks (c ∷ cs) ≡ 0 → marks where_text ≡ length (words_params (c ∷ cs) (split b' ' text))
  marks-where_text h =
      let joined = join_text (codes " AND ") (conditions (c ∷ cs) (split b' ' text)) in
      let one = marks-append joined (codes ")") in
      let counted = marks-join_text (codes " AND ") (conditions (c ∷ cs) (split b' ' text)) refl in
      let same = all_marks-conditions (c ∷ cs) (split b' ' text) h in omega arith

  marked : all_marks (c ∷ cs) ≡ 0 → 0 < marks text → search (c ∷ cs) text ≡ none
  unfolding search
  marked h k =
      let words = split b' ' text in
      let same = marks-where_text h in
      let kept = all_marks-split text in
      let more = all_marks-words_params c cs words (omega arith) in
      let lost = fill-none (words_params (c ∷ cs) words) where_text (omega arith) (omega arith) in
      elim (Bool-cases (is_empty text)) [
        | inl empty ↦ ground (arith, empty)
        | inr full ↦ ground (arith, full, lost)
      ]

  unmarked : all_marks (c ∷ cs) ≡ 0 → marks text ≡ 0 → (t : Text) × (search (c ∷ cs) text ≡ some t)
  unfolding search
  unmarked h k =
      let words = split b' ' text in
      let same = marks-where_text h in
      let kept = all_marks-split text in
      let none_in = all_marks-words_params_none (c ∷ cs) words (omega arith) in
      let (t, done) = fill-some (words_params (c ∷ cs) words) where_text (omega arith) none_in in
      elim (Bool-cases (is_empty text)) [
        | inl empty ↦ (codes "deleted_at IS NULL", ground (arith, empty))
        | inr full ↦ (t, ground (arith, full, done))
      ]

  -- A search in at least one column panics exactly if its text has a question mark, which the loop
  -- takes for a placeholder. The columns have none.
  pub search-none_iff :
      all_marks (c ∷ cs) ≡ 0 → (search (c ∷ cs) text ≡ none) ↔ (has_byte b'?' text ≡ true)
  search-none_iff h = elim (Bool-cases (ltb 0 (marks text))) [
    | inl some_in ↦
        ((λ e. has_byte-marks text ∙ some_in), (λ e. marked h (ground (arith, some_in))))
    | inr none_in ↦
        let (t, done) = unmarked h (ground (arith, none_in)) in
        (
          (λ e. absurd (ground (arith, e, done))),
          (λ e. absurd (ground (arith, e, none_in, has_byte-marks text))),
        )
  ]
