-- ===== src/Tests/V1Nats.antt =====
-- A request of version 1 on a bus where nobody answers
-- (pkg/service/providers/nats/nats-provider.go).
use spike_broker.Prelude.{◌≡◌, refl, inr, some, [], ◌∷◌, Text, codes}
use spike_broker.Prelude.Decimal.{pos}
use spike_broker.Go.{value}
use spike_broker.Nats.Ring.{next}
use spike_broker.Nats.Response.{message}
use spike_broker.Nats.Provider.{Bus}
use spike_broker.V1.Rids.{endpoint_name, user_have_permission}
use spike_broker.V1.Request.{CallRequest, empty_request}
use spike_broker.V1.Handler.{prepared, permission_request, with_processed}
use spike_broker.V1.Nats.{request_raw, fill_params}
use spike_broker.V1.Nats.Absent.{Unanswered, with_processed-unanswered}
use spike_broker.Text.{has_prefix, replace_all}
use spike_broker.Tests.World.{Mail}
use spike_broker.Tests.NatsProvider.{bus, none_yet}
use spike_broker.Tests.V1Route.{item, codec}

abbrev silent : Bus Mail
silent = record bus { received = λ inbox w. (message [] ∷ [], w) }

abbrev unanswered : (subject content : Text) → Unanswered silent subject content none_yet
unanswered subject content = record {
  inbox = codes "inbox";
  sub = 1;
  opened = [];
  subscribed = (codes "inbox", []) ∷ [];
  published = (subject, content) ∷ (codes "inbox", []) ∷ [];
  answered = (subject, content) ∷ (codes "inbox", []) ∷ [];
  opens = refl;
  subscribes = refl;
  publishes = refl;
  receives = refl;
}

abbrev asks : CallRequest
asks = permission_request codec item (record empty_request { token = codes "user" })

with_processed-unanswered_example :
    with_processed codec
      (request_raw silent (pos 5))
      item
      empty_request
      (some (codes "user"))
      none_yet
    ≡ (
      value (inr (record empty_request { token = codes "user" })),
      record none_yet {
        ring = next none_yet.ring;
        world =
            (codes "end", [])
            ∷ (
              endpoint_name user_have_permission,
              codec.call_to_json (prepared user_have_permission asks (codes "user")),
            )
            ∷ (codes "inbox", [])
            ∷ [];
      },
    )
with_processed-unanswered_example =
    with_processed-unanswered silent codec (pos 5) item empty_request (codes "user") none_yet
      (unanswered (endpoint_name user_have_permission)
        (codec.call_to_json (prepared user_have_permission asks (codes "user"))))
      refl

-- The parameters are filled in one after the other, each wherever its name begins a word: in the
-- other order the second would get its own value.
prefixed :
    (fill_params
        ((codes "Id", codes "7") ∷ (codes "IdUser", codes "me") ∷ [])
        (codes "a.$Id.$IdUser")
      ≡ codes "a.7.7User")
    × (fill_params
          ((codes "IdUser", codes "me") ∷ (codes "Id", codes "7") ∷ [])
          (codes "a.$Id.$IdUser")
        ≡ codes "a.7.me")
unfolding fill_params replace_all has_prefix
prefixed = (refl, refl)
