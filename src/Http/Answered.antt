-- ===== src/Http/Answered.antt =====
-- What a REST client gets of a service's answer: `httpHandler` of v2/pkg/spike/http-server.go over
-- `Request` of v2/pkg/broker/specific-provider-base.go.
use spike_broker.Prelude.{◌&&◌, if◌then◌else◌}
use spike_broker.Rids.Pattern.{Pattern}
use spike_broker.Broker.Message.{ErrorMessage, code}
use spike_broker.Broker.Call.{Codec, Call}
use spike_broker.Broker.Provider
use spike_broker.Broker.Provider.{Specific, is_failure}
use spike_broker.Go.{Exit, value, panic}
use spike_broker.Http.{Web, HttpResponse, plain_response, result_response, is_invalid, invalid_code}

module _ (c : Codec) (web : Web) where
  -- The response for the answer `m` of a service.
  abbrev pub response_of : ErrorMessage → HttpResponse
  response_of m =
      if is_failure (code m)
      then plain_response (code m) (c.error_to_json m)
      else result_response web m.message.data_iface (web.data_url m.message.data_iface)

  module _ {W : Type 0} (impl : Specific W) where
    -- What the handler comes to: `WriteHeader` panics on an error's code outside 100 to 999.
    abbrev pub outcome_of : ErrorMessage → W → Exit HttpResponse × W
    outcome_of m w =
        if is_failure (code m) && is_invalid (code m)
        then (panic invalid_code, w)
        else (value (response_of m), w)
