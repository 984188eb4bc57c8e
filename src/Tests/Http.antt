-- ===== src/Tests/Http.antt =====
-- A REST request for an item of the toy service.
use spike_broker.Prelude.{◌≡◌, refl, none, [], ◌∷◌, codes}
use spike_broker.Http.{Web, HttpRequest, read, get_bearer}
use spike_broker.Http.Routes.{targets, all_routes, all_patterns, all_routes-get_handlers}
use spike_broker.Socket.Message.{get_handlers}
use spike_broker.Tests.World.{item, sold, sold}
use spike_broker.Text.{has_prefix}

abbrev web : Web
web = record { data_url = λ t. none; etag = λ t. t }

abbrev asking : HttpRequest
asking = record {
  body = read [];
  authorization = codes "Bearer me";
  form_token = [];
  url_param = λ name. codes "42";
  encoded_query = codes "full=1";
}

-- The prefix of the header is dropped.
bearer : get_bearer asking ≡ codes "me"
unfolding get_bearer has_prefix
bearer = refl

-- The REST routes of the shop, and its WebSocket.
all_routes-get_handlers_example :
    targets (all_routes (λ s. s) ((item ∷ sold ∷ []) ∷ []))
    ≡ get_handlers (record { id = []; token = []; handlers = item ∷ sold ∷ [] })
unfolding all_patterns
all_routes-get_handlers_example =
    all_routes-get_handlers (λ s. s) ((item ∷ sold ∷ []) ∷ [])
      (record { id = []; token = []; handlers = item ∷ sold ∷ [] }) refl
