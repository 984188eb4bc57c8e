-- ===== src/Broker/CallV1.antt =====
-- v2/pkg/broker/callv1.go: a request of version 1 as a call of version 2.
use spike_broker.Prelude.{◌⊎◌, inl, inr, true, none, [], Text}
use spike_broker.Rids.Pattern.{Parsed, parsed, invalid_endpoint, invalid_verb, new_pattern_from_v1}
use spike_broker.Broker.Call.{Call}
use spike_broker.V1.Request.{CallRequest}

-- The call for a pattern, or the endpoint of the error. The pattern of a request has no verb that could
-- be invalid.
abbrev pub call_for : CallRequest → Parsed → Text ⊎ Call
call_for r (parsed p) = inr (record {
  raw_data = r.content;
  reply_str = [];
  endpoint_pattern = p;
  token = r.token;
  err = none;
  api_version = 2;
  is_v1 = true;
})
call_for r (invalid_endpoint endpoint) = inl endpoint
call_for r invalid_verb = inl r.endpoint

-- `NewCallFromV1`; the parameters of the request stand in the order in which Go walks its map.
unfoldable pub new_call_from_v1 : CallRequest → Text ⊎ Call
new_call_from_v1 r = call_for r (new_pattern_from_v1 r.endpoint r.params)
