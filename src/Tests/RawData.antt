-- ===== src/Tests/RawData.antt =====
-- Bytes in JSON (v2/pkg/broker/rawdata.go), in quotes without their base64.
use spike_broker.Prelude.{◌≡◌, refl, some, ◌∷◌, ◌++◌, drop, drop_last, Text, codes, text_eq}
use spike_broker.Text.{has_prefix}
use spike_broker.Broker.RawData.{BytesCodec, marshal_json, unmarshal_json, is_marked}
use spike_broker.Broker.RawData.Received.{unmarshal_json-marshal_json, received}

abbrev quoted : BytesCodec
quoted = record {
  marshal = λ s. some (b'"' ∷ (s ++ codes "\""));
  unmarshal = λ s. some (drop_last (drop 1 s));
}

unmarshal_json-marshal_json_example :
    (s : Text) × (marshal_json quoted (codes "abc") ≡ some s)
    × (unmarshal_json quoted s ≡ received quoted (codes "abc"))
unmarshal_json-marshal_json_example =
    unmarshal_json-marshal_json quoted (codes "abc") (codes "abc\"", refl, (λ e. cc), refl)

-- A JSON string that begins like the mark is read as if it were encoded.
misread :
    (marshal_json quoted (codes "\"spiked\"") ≡ some (codes "\"spiked\""))
    × (unmarshal_json quoted (codes "\"spiked\"") ≡ some (codes "d"))
unfolding marshal_json unmarshal_json is_marked has_prefix text_eq
misread = (refl, refl)
