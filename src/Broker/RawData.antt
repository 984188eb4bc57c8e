-- ===== src/Broker/RawData.antt =====
-- v2/pkg/broker/rawdata.go, of which pkg/service/request/rawdata.go is a copy: bytes in JSON. What
-- encoding/json makes of a `[]byte` is a parameter.
pub mod Received
use spike_broker.Prelude.{
  ℕ, zero, suc, ◌+◌, ◌-◌, ◌*◌, ◌/◌, ◌%◌, ◌^◌, ◌≤◌, ◌<◌, ◌≡◌, refl, sym, ap, ◌∙◌, ◌≢◌, ◌↔◌, ◌⊎◌, inl,
  inr, Bool, true, false, not, ◌&&◌, ◌||◌, Option, none, some, List, [], ◌∷◌, ◌++◌, map, arith, ltb,
  leb, ◌==◌, if◌then◌else◌, ==_iff, Bool-cases, Option-cases, length, length-append, is_empty, drop,
  find, filter, drop_last, All, All-append, All-left, Text, codes, text_eq, text_eq_refl,
  text_eq_iff, text_eq_ne, Dict, lookup, insert, lookup-insert, contains,
}
use spike_broker.Text.{has_prefix}

-- `json.Marshal` and `json.Unmarshal` on a `[]byte`; `none` is an error.
pub record BytesCodec : Type 0 where
  pub marshal : Text → Option Text
  pub unmarshal : Text → Option Text

abbrev pub null : Text
null = codes "null"

abbrev pub mark : Text
mark = codes "\"spike"

-- `len(data) > 6 && string(data[0:6]) == "\"spike"`.
unfoldable pub is_marked : Text → Bool
is_marked s = ltb 6 (length s) && has_prefix s mark

-- The encoded text, with the mark in place of its quote.
abbrev pub mark_encoded : Option Text → Option Text
mark_encoded none = none
mark_encoded (some encoded) = some (mark ++ drop 1 encoded)

-- `MarshalJSON`.
unfoldable pub marshal_json : BytesCodec → Text → Option Text
marshal_json c r =
    if is_empty r || text_eq r null
    then some null
    else if is_marked r
    then some r
    else mark_encoded (c.marshal r)

-- `UnmarshalJSON` into an empty value.
unfoldable pub unmarshal_json : BytesCodec → Text → Option Text
unmarshal_json c s = if is_marked s then c.unmarshal (b'"' ∷ drop 6 s) else some s
