-- ===== src/Tests/Broker.antt =====
-- Requests, publications and their answers, with the toy provider.
use spike_broker.Prelude.{
  ◌<◌, ◌≡◌, refl, ◌↔◌, ◌⊎◌, inl, inr, none, some, [], ◌∷◌, arith, Text, codes, text_eq, Dict,
  lookup, insert,
}
use spike_broker.Text.{has_byte}
use spike_broker.Rids.Pattern.{nil}
use spike_broker.Broker.Message.{ErrorMessage, error_status_forbidden}
use spike_broker.Broker.Call.{Call, to_json, to_wire}
use spike_broker.Broker.Provider.{raw, succeeds, read_answer, publish}
use spike_broker.Broker.Provider.Outcome.{read_answer-succeeds_iff}
use spike_broker.Broker.Provider.Publishing.{IsAsking, publish-verdict, publish_endpoint}
use spike_broker.Go.{value}
use spike_broker.Text.{split, join, has_prefix, replace_first}
use spike_broker.V1.Request.{CallRequest, empty_request}
use spike_broker.Rids.Method.{new_method, bind_params, bind_param, default_params, is_placeholder}
use spike_broker.Rids.Pattern.{
  new_pattern_from_v1, from_parts, new_pattern, endpoint_name_specific, fill_parts, fill_part,
}
use spike_broker.Broker.CallV1.{new_call_from_v1}
use spike_broker.Tests.World.{sold, encode, decode, codec, call_with, answering}

abbrev allowed : Text
allowed = 200 ∷ 0 ∷ []

abbrev forbidden : Text
forbidden = encode error_status_forbidden

abbrev asking : Call
asking = call_with [] []

sold_asks : (endpoint : Text) → IsAsking codec (answering forbidden) endpoint sold asking
unfolding has_byte
sold_asks endpoint = record {
  versioned = omega arith;
  event = refl;
  plain_service = refl;
  encoded = codes "sold";
  encodes = refl;
  calls = refl;
}

-- A forbidden publication: only the request to the validating service went out.
publish-verdict_example :
    publish codec (answering forbidden) sold nil (some (codes "me")) []
    ≡ (value (some error_status_forbidden), (codes "shop.validatePublish.INTERNAL", []) ∷ [])
unfolding to_json to_wire
publish-verdict_example =
    publish-verdict codec (answering forbidden) sold nil (codes "me") asking asking asking []
      (sold_asks publish_endpoint) refl refl

read_answer-succeeds_iff_example : (read_answer codec raw (none, allowed) ≡ succeeds (some [])) ↔ (
    (m : ErrorMessage) × (decode allowed ≡ some m)
    × (100 < m.message.code_int)
    × (m.message.code_int < 300)
    × (m.message.data_iface ≡ []))
read_answer-succeeds_iff_example = read_answer-succeeds_iff codec allowed []

abbrev from_v1 : Dict Text → CallRequest
from_v1 params = record empty_request {
  endpoint = codes "shop.item.$Id.at.$Place";
  params = params;
}

abbrev goes_to : Text ⊎ Call → Text
goes_to (inl endpoint) = []
goes_to (inr m) = endpoint_name_specific m.endpoint_pattern

-- The parameters of a request of version 1 are taken in the order in which the map is walked.
new_call_from_v1_in_order :
    goes_to (new_call_from_v1 (from_v1 ((codes "Id", codes "7") ∷ (codes "Place", codes "a") ∷ [])))
    ≡ codes "shop.item.7.at.a."
unfolding new_call_from_v1 new_pattern_from_v1 from_parts new_method bind_params bind_param
    default_params is_placeholder new_pattern endpoint_name_specific fill_parts fill_part split join
    has_byte has_prefix replace_first insert lookup text_eq
new_call_from_v1_in_order = refl

new_call_from_v1_swapped :
    goes_to (new_call_from_v1 (from_v1 ((codes "Place", codes "a") ∷ (codes "Id", codes "7") ∷ [])))
    ≡ codes "shop.item.a.at.7."
unfolding new_call_from_v1 new_pattern_from_v1 from_parts new_method bind_params bind_param
    default_params is_placeholder new_pattern endpoint_name_specific fill_parts fill_part split join
    has_byte has_prefix replace_first insert lookup text_eq
new_call_from_v1_swapped = refl
