-- ===== src/Tests/NatsProvider.antt =====
-- The toy service over a toy of package nats, whose state is what has been called.
use spike_broker.Prelude.{
  suc, ◌≡◌, refl, inr, none, some, [], ◌∷◌, arith, length, codes, lookup, text_eq,
}
use spike_broker.Prelude.Decimal.{pos}
use spike_broker.Text.{split, join, has_byte, has_prefix}
use spike_broker.Rids.Verb
use spike_broker.Rids.Method.{Params, is_placeholder}
use spike_broker.Rids.Pattern.{
  Pattern, endpoint_name, endpoint_name_specific, set_params, nil, fill_parts, fill_part,
}
use spike_broker.Rids.Fill.{lit, param}
use spike_broker.Rids.Shape.{IsShaped}
use spike_broker.Broker.Call.{to_json, to_wire, new_call, payload_of}
use spike_broker.Broker.Provider
use spike_broker.Broker.Provider.{raw, read_answer, with_token}
use spike_broker.Go.{Exit, value, panic}
use spike_broker.Nats.Ring.{next}
use spike_broker.Nats.Subject.{wildcards, replace_params, starts_part}
use spike_broker.Nats.Subject.Covers.{Covers, wildcards-Covers}
use spike_broker.Nats.Response.{message, clamp_timeout}
use spike_broker.Nats.Response.Waiting.{extensions}
use spike_broker.Nats.Provider.{
  Bus, Nats, subscribe_raw, new_nats_provider, connect_all, connect_more, nats_specific,
}
use spike_broker.Nats.Provider.Turns.{Reachable, made, subscribe_each, subscribe_raw-Reachable}
use spike_broker.Nats.Provider.Requests.{request-served}
use spike_broker.Tests.World.{Mail, item, codec, pattern_of, call_with}

-- The item as the service declares it.
abbrev declared : Pattern
declared = pattern_of Verb.get (codes "item.$Id") ((codes "Id", []) ∷ [])

abbrev values : Params
values = (codes "Id", codes "42") ∷ []

subject : wildcards (endpoint_name_specific declared) ≡ codes "shop.item.*.GET"
unfolding endpoint_name_specific endpoint_name wildcards replace_params fill_parts split fill_part
    is_placeholder lookup text_eq starts_part
subject = refl

declared-IsShaped : IsShaped declared (lit (codes "item")) (param (codes "Id") ∷ [])
unfolding join has_byte
declared-IsShaped = record {
  generic = refl;
  named = λ e. cc;
  plain = ((refl, refl), (((λ e. cc), refl), tt));
  distinct = (tt, tt);
  service = (refl, refl);
  verb = (refl, refl);
}

wildcards-Covers_example :
    Covers
      (split b'.' (wildcards (endpoint_name_specific declared)))
      (split b'.' (endpoint_name_specific (set_params values declared)))
    × Covers
        (split b'.' (wildcards (endpoint_name_specific declared)))
        (split b'.' (endpoint_name (set_params values declared)))
unfolding lookup has_byte text_eq
wildcards-Covers_example =
    wildcards-Covers declared (lit (codes "item")) (param (codes "Id") ∷ []) declared-IsShaped
      values (tt, (refl, tt)) (tt, ((codes "42", refl, (λ e. cc), refl), tt)) (tt, (refl, tt))

abbrev pub bus : Bus Mail
bus = record {
  connect = λ w. (inr (length w), (codes "connect", []) ∷ w);
  queue_subscribe = λ conn subject group channel w. (some (length w), (subject, group) ∷ w);
  unsubscribe = λ sub w. (codes "end", []) ∷ w;
  publish = λ conn subject content w. (none, (subject, content) ∷ w);
  new_inbox = λ w. (codes "inbox", w);
  chan_subscribe = λ conn inbox w. (inr 1, (inbox, []) ∷ w);
  publish_msg = λ conn subject inbox content w. (none, (subject, content) ∷ w);
  received = λ inbox w. (extensions (pos 5000000000 ∷ []) (message (codes "ok") ∷ []), w);
  drain = λ conn w. w;
  close = λ conn w. w;
}

abbrev pub none_yet : Nats Mail
none_yet = record { ring = record { here = 0; rest = [] }; channels = 0; closed = []; world = [] }

abbrev provider_of : Exit (Nats Mail) × Mail → Nats Mail
provider_of (value s, w) = s
provider_of (panic q, w) = none_yet

abbrev started : Nats Mail
started = provider_of (new_nats_provider bus [])

abbrev mail_of : Exit (Nats Mail) × Mail → Mail
mail_of (r, w) = w

started-Reachable : Reachable bus started
unfolding new_nats_provider connect_all connect_more
started-Reachable = made [] (mail_of (new_nats_provider bus [])) refl

subscribe_raw-Reachable_example : subscribe_raw bus item (codes "shop") started ≡ (
  record {
    unsubs = (subscribe_each bus item (codes "shop") started).0;
    channel = started.channels;
  },
  record started {
    channels = suc started.channels;
    world = (subscribe_each bus item (codes "shop") started).1;
  },
)
subscribe_raw-Reachable_example =
    subscribe_raw-Reachable bus item (codes "shop") started started-Reachable

request-served_example :
    Provider.request codec (nats_specific bus codec (pos 7)) item nil raw none none_yet ≡ (
      value (read_answer codec raw (none, codes "ok")),
      record none_yet {
        world = (codes "end", []) ∷ (codes "shop.item.$Id.GET", []) ∷ (codes "inbox", []) ∷ [];
      },
    )
unfolding new_call payload_of next endpoint_name to_json to_wire has_prefix clamp_timeout
request-served_example =
    request-served bus codec (pos 7) item nil none
      (record (call_with [] []) { token = []; endpoint_pattern = item }) none_yet
      (pos 5000000000 ∷ []) (codes "ok")
      (record {
        inbox = codes "inbox";
        made = [];
        makes = refl;
        subscription = 1;
        subscribed = (codes "inbox", []) ∷ [];
        subscribes = refl;
        sent = (codes "shop.item.$Id.GET", []) ∷ (codes "inbox", []) ∷ [];
        sends = refl;
        later = [];
        done = (codes "shop.item.$Id.GET", []) ∷ (codes "inbox", []) ∷ [];
        receives = refl;
      })
      refl (omega arith, tt) (λ e. cc) refl
