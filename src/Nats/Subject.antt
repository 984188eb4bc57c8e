-- ===== src/Nats/Subject.antt =====
-- v2/pkg/broker/providers/nats/provider.go: the subject of a subscription, in which the
-- placeholders that have no parameter become wildcards.
pub mod Covers
use spike_broker.Prelude.{Bool, true, false, not, ◌&&◌, [], ◌∷◌, ◌==◌, Text}

-- `[^.]` at the front of a text.
unfoldable pub starts_part : Text → Bool
starts_part [] = false
starts_part (c ∷ s) = not (c == b'.')

-- ReplaceAllString(s, "*") of the expression `\$[^.]+`; the flag says that a match is being read.
unfoldable pub replace_params : Bool → Text → Text
replace_params inside [] = []
replace_params true (c ∷ s) = elim (c == b'.') [
  | true ↦ c ∷ replace_params false s
  | false ↦ replace_params true s
]
replace_params false (c ∷ s) = elim (c == b'$' && starts_part s) [
  | true ↦ b'*' ∷ replace_params true s
  | false ↦ c ∷ replace_params false s
]

unfoldable pub wildcards : Text → Text
wildcards s = replace_params false s
