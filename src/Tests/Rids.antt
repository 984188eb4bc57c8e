-- ===== src/Tests/Rids.antt =====
-- Names of patterns at concrete endpoints.
use spike_broker.Prelude.{◌≡◌, refl, [], ◌∷◌, codes, text_eq, lookup}
use spike_broker.Text.{split, join, has_byte, replace_first, has_prefix}
use spike_broker.Rids.Pattern.{endpoint_name_specific, fill_parts, fill_part}
use spike_broker.Rids.Fill.{lit, param, endpoint_name_specific-value}
use spike_broker.Tests.World.{item}
use spike_broker.Rids.Method.{is_placeholder}

item_specific : endpoint_name_specific item ≡ codes "shop.item.7.GET"
unfolding endpoint_name_specific fill_parts fill_part is_placeholder has_byte split lookup text_eq
    replace_first has_prefix
item_specific = refl

endpoint_name_specific-value_example : endpoint_name_specific item ≡ codes "shop.item.7.GET"
unfolding join has_byte lookup text_eq
endpoint_name_specific-value_example =
    endpoint_name_specific-value item (lit (codes "item")) (param (codes "Id") ∷ []) refl (λ e. cc)
      ((refl, refl), (((λ e. cc), refl), tt)) (tt, ((codes "7", refl, (λ e. cc), refl), tt))
