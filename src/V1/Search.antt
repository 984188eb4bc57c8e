-- ===== src/V1/Search.antt =====
-- `Search` of pkg/service/request/request.go, which writes the words of a search into an SQL text.
pub mod Marks
use spike_broker.Prelude.{
  ℕ, zero, suc, ◌+◌, ◌-◌, ◌*◌, ◌/◌, ◌%◌, ◌^◌, ◌≤◌, ◌<◌, ◌≡◌, refl, sym, ap, ◌∙◌, ◌≢◌, ◌↔◌, ◌⊎◌, inl,
  inr, Bool, true, false, not, ◌&&◌, ◌||◌, Option, none, some, List, [], ◌∷◌, ◌++◌, map, arith, ltb,
  leb, ◌==◌, if◌then◌else◌, ==_iff, Bool-cases, Option-cases, length, length-append, is_empty, drop,
  find, filter, drop_last, All, All-append, All-left, Text, codes, text_eq, text_eq_refl,
  text_eq_iff, text_eq_ne, Dict, lookup, insert, lookup-insert, contains,
}
use spike_broker.Text.{split, has_byte, replace_first}

-- `strings.Join`.
unfoldable pub join_text : Text → List Text → Text
join_text sep [] = []
join_text sep (x ∷ []) = x
join_text sep (x ∷ y ∷ ys) = x ++ (sep ++ join_text sep (y ∷ ys))

-- The columns with their placeholders, and the condition on one word.
unfoldable pub likes : List Text → List Text
likes [] = []
likes (c ∷ cs) = (c ++ codes " LIKE ?") ∷ likes cs

unfoldable pub condition : List Text → Text
condition columns = codes "(" ++ (join_text (codes " OR ") (likes columns) ++ codes ")")

unfoldable pub conditions : List Text → List Text → List Text
conditions columns [] = []
conditions columns (w ∷ ws) = condition columns ∷ conditions columns ws

-- The parameters: each word once for each column.
abbrev pub quoted : Text → Text
quoted w = codes "'%" ++ (w ++ codes "%'")

unfoldable pub repeated : List Text → Text → List Text → List Text
repeated [] w rest = rest
repeated (c ∷ cs) w rest = quoted w ∷ repeated cs w rest

unfoldable pub words_params : List Text → List Text → List Text
words_params columns [] = []
words_params columns (w ∷ ws) = repeated columns w (words_params columns ws)

-- The loop that puts the parameters in; it panics where they run out, which is `none`.
unfoldable pub fill : List Text → Text → Option Text
fill [] s = if has_byte b'?' s then none else some s
fill (w ∷ ws) s =
    let rest = fill ws (replace_first s (codes "?") w) in if has_byte b'?' s then rest else some s

-- The search form, of which `none` is the panic.
unfoldable pub search : List Text → Text → Option Text
search columns text =
    if is_empty text
    then some (codes "deleted_at IS NULL")
    else let words = split b' ' text in
      fill (words_params columns words) (
        codes "deleted_at IS NULL AND ("
        ++ (join_text (codes " AND ") (conditions columns words) ++ codes ")"))
