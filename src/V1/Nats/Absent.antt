-- ===== src/V1/Nats/Absent.antt =====
-- A request of version 1 to a service that does not run
-- (pkg/service/providers/nats/nats-provider.go).
use spike_broker.Prelude.{ℕ, ◌≡◌, refl, ap, inr, none, some, List, [], ◌∷◌, arith, Text}
use spike_broker.Prelude.Decimal.{ℤ}
use spike_broker.Text.{has_prefix}
use spike_broker.Go.{value, continue}
use spike_broker.Nats.Ring.{next}
use spike_broker.Nats.Response.{Received, message, expired}
use spike_broker.Nats.Provider.{Bus, Nats}
use spike_broker.V1.Rids.{Pattern, endpoint_name, user_have_permission}
use spike_broker.V1.Request.{CallRequest, Codec, read_answer}
use spike_broker.V1.Handler.{request, prepared, permission_request, with_processed, by_permission}
use spike_broker.V1.Nats.{request_raw, await}
use spike_broker.V1.Nats.Response.{process_response, on_message, get_timeout, payload}

-- What package nats does with a request that nobody has subscribed to: the calls succeed, and the
-- inbox gets one message, which is empty.
pub record Unanswered {W : Type 0} (bus : Bus W) (subject content : Text) (s : Nats W)
    : Type 0 where
  pub inbox : Text
  pub sub : ℕ
  pub opened : W
  pub subscribed : W
  pub published : W
  pub answered : W
  pub opens : bus.new_inbox s.world ≡ (inbox, opened)
  pub subscribes : bus.chan_subscribe (next s.ring).here inbox opened ≡ (inr sub, subscribed)
  pub publishes :
      bus.publish_msg (next s.ring).here subject inbox content subscribed ≡ (none, published)
  pub receives : bus.received inbox published ≡ (message [] ∷ [], answered)

empty_response :
    (t : ℤ) (rs : List Received) → (process_response t (message [] ∷ rs)).1 ≡ payload []
unfolding process_response on_message get_timeout has_prefix
empty_response t rs = refl

module _ {W : Type 0} (bus : Bus W) (c : Codec) (t : ℤ) where
  await-empty :
      (inbox : Text) (w v : W)
      → bus.received inbox w ≡ (message [] ∷ [], v)
      → await bus t inbox w ≡ ((none, []), v)
  unfolding await
  await-empty inbox w v h = ground (arith, h, empty_response t (expired ∷ []))

  request_raw-empty :
      (subject content : Text) (s : Nats W) (u : Unanswered bus subject content s)
      → request_raw bus t subject content s ≡ (
        (none, []),
        record s { ring = next s.ring; world = bus.unsubscribe (some u.sub) u.answered },
      )
  unfolding request_raw
  request_raw-empty subject content s u = ground (
    arith,
    u.opens,
    u.subscribes,
    u.publishes,
    await-empty u.inbox u.published u.answered u.receives,
  )

  -- In version 1 a request that nobody answers is a success without data, where the server of nats
  -- reports this by an empty message, and an empty text decodes to an error without a message.
  pub request-unanswered :
      (p : Pattern) (m : CallRequest) (token : Text) (s : Nats W)
      (u : Unanswered bus (endpoint_name p) (c.call_to_json (prepared p m token)) s)
      → (c.error_from_json []).message ≡ []
      → request c (request_raw bus t) p m token s ≡ (
        value (inr (c.error_from_json []).content),
        record s { ring = next s.ring; world = bus.unsubscribe (some u.sub) u.answered },
      )
  unfolding request read_answer
  request-unanswered p m token s u bare =
      ground
        (arith, request_raw-empty (endpoint_name p) (c.call_to_json (prepared p m token)) s u, bare)

  -- If the service `route` stops between the two requests of an authorization, the call goes on: a
  -- permission that nobody decides on is granted.
  pub with_processed-unanswered :
      (p : Pattern) (m : CallRequest) (token : Text) (s : Nats W)
      (u : Unanswered bus
        (endpoint_name user_have_permission)
        (c.call_to_json (
          prepared user_have_permission
            (permission_request c p (record m { token = token }))
            token))
        s)
      → (c.error_from_json []).message ≡ []
      → with_processed c (request_raw bus t) p m (some token) s ≡ (
        value (inr (record m { token = token })),
        record s { ring = next s.ring; world = bus.unsubscribe (some u.sub) u.answered },
      )
  with_processed-unanswered p m token s u bare =
      ap (continue (by_permission c (request_raw bus t) (record m { token = token }))) (
        request-unanswered user_have_permission
          (permission_request c p (record m { token = token })) token s u bare)
