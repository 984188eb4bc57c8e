-- ===== src/Broker/RawData/Received.antt =====
-- What a reader gets of the bytes that were written (v2/pkg/broker/rawdata.go).
use spike_broker.Prelude.{
  ◌≡◌, refl, sym, ap, ◌∙◌, ◌≢◌, inl, inr, true, false, ◌||◌, Option, some, [], ◌∷◌, ◌++◌, arith,
  if◌then◌else◌, Bool-cases, is_empty, drop, Text, text_eq, text_eq_iff,
}
use spike_broker.Text.{has_prefix}
use spike_broker.Broker.RawData.{BytesCodec, marshal_json, unmarshal_json, is_marked, mark, null}

-- encoding/json writes a `[]byte` as a string in quotes, and reads it back.
abbrev pub Quotes : BytesCodec → Text → Type 0
Quotes c r =
    (s : Text) × (c.marshal r ≡ some (b'"' ∷ s)) × (s ≢ []) × (c.unmarshal (b'"' ∷ s) ≡ some r)

-- The bytes that arrive: none as `null`, those that begin like the mark decoded once more, and all
-- others as they are.
abbrev pub received : BytesCodec → Text → Option Text
received c r =
    if is_empty r then some null else if is_marked r then c.unmarshal (b'"' ∷ drop 6 r) else some r

is_marked-mark : (s : Text) → s ≢ [] → is_marked (mark ++ s) ≡ true
unfolding is_marked has_prefix
is_marked-mark [] h = absurd (h refl)
is_marked-mark (b ∷ s) h = ground arith

-- The four ways in which a value is written.
module _ (c : BytesCodec) (r : Text) where
  written_null : (is_empty r || text_eq r null) ≡ true → marshal_json c r ≡ some null
  unfolding marshal_json
  written_null h = rw h

  written_marked :
      (is_empty r || text_eq r null) ≡ false → is_marked r ≡ true → marshal_json c r ≡ some r
  unfolding marshal_json
  written_marked h k = rw (h, k) refl

  written_encoded :
      (s : Text)
      → (is_empty r || text_eq r null) ≡ false
      → is_marked r ≡ false
      → c.marshal r ≡ some (b'"' ∷ s)
      → marshal_json c r ≡ some (mark ++ s)
  unfolding marshal_json
  written_encoded s h k e = ground (arith, h, k, e)

  read_marked : is_marked r ≡ true → unmarshal_json c r ≡ c.unmarshal (b'"' ∷ drop 6 r)
  unfolding unmarshal_json
  read_marked h = rw h

read_null :
    (c : BytesCodec) (r : Text)
    → (is_empty r || text_eq r null) ≡ true
    → unmarshal_json c null ≡ received c r
unfolding unmarshal_json is_marked has_prefix
read_null c [] h = refl
read_null c (b ∷ r) h = sym (ap (received c) ((text_eq_iff (b ∷ r) null).0 h))

-- Every value can be written, and what is read of it is `received`.
pub unmarshal_json-marshal_json :
    (c : BytesCodec) (r : Text)
    → Quotes c r
    → (s : Text) × (marshal_json c r ≡ some s) × (unmarshal_json c s ≡ received c r)
unmarshal_json-marshal_json c r (s, writes, full, reads) =
    elim (Bool-cases (is_empty r || text_eq r null)) [
      | inl none_sent ↦ (null, written_null c r none_sent, read_null c r none_sent)
      | inr other ↦ elim (Bool-cases (is_marked r)) [
        | inl marked ↦ (
          r,
          written_marked c r other marked,
          ground (arith, other, marked, read_marked c r marked),
        )
        | inr plain ↦ (
          mark ++ s,
          written_encoded c r s other plain writes,
          read_marked c (mark ++ s) (is_marked-mark s full) ∙ reads ∙ ground (arith, other, plain),
        )
      ]
    ]
