-- ===== src/Api/Events/Grants.antt =====
-- What `validateMonitor` and `validatePublish` decide (v2/pkg/spike/api-service-impl.go).
use mathlib.Core.Path.{subst}
use spike_broker.Prelude.{
  ◌≡◌, refl, ap, ◌∙◌, ◌↔◌, inl, inr, Option, none, some, List, [], ◌∷◌, arith, if◌then◌else◌,
  Bool-cases, Option-cases, text_eq,
}
use spike_broker.Rids.Pattern.{Pattern, endpoint_name}
use spike_broker.Broker.Call.{
  Codec, Call, Decoded, malformed, no_method, decoded, access_denied, access_granted,
}
use spike_broker.Go.{>>=-eq-value, value, pure}
use spike_broker.Api.Request.{AccessHandler}
use spike_broker.Api.Request.Access.{Passes, done, next}
use spike_broker.Api.Events.{Event, Check, validators_of, run_all, run_event, run_events, validate}

-- The first event of that name, if any.
abbrev pub declared : {W : Type 0} → Pattern → List (Event W) → Option (Event W)
declared p [] = none
declared p (e ∷ es) =
    if text_eq (endpoint_name e.resource) (endpoint_name p) then some e else declared p es

module _ {W : Type 0} where
  run_all-Passes :
      (vs : List (AccessHandler W)) (a b : Call) (w w' : W)
      → run_all vs a w ≡ (value b, w')
      → b.err ≡ none
      → Passes vs a w w'
  unfolding run_all
  run_all-Passes [] a b w w' h granted = subst (λ x. Passes [] a w x) (ground arith) done
  run_all-Passes (v ∷ vs) a b w w' h granted =
      let (a', u, ran, rest) =
        >>=-eq-value (v a) (λ a'. elim a'.err [ some e ↦ pure a' | none ↦ run_all vs a' ]) w h in
      elim (Option-cases a'.err) [
        | inl fine ↦
            next ran fine (run_all-Passes vs a' b u w' (ground (arith, rest, fine)) granted)
        | inr (e, failed) ↦ absurd (ground (arith, rest, failed, granted))
      ]

  run_event-Passes :
      (vs : List (AccessHandler W)) (a b : Call) (w w' : W)
      → run_event vs a w ≡ (value b, w')
      → b.err ≡ none
      → Passes vs a w w'
  unfolding run_event
  run_event-Passes [] a b w w' h granted = subst (λ x. Passes [] a w x) (ground arith) done
  run_event-Passes (v ∷ vs) a b w w' h granted = run_all-Passes (v ∷ vs) a b w w' h granted

  run_all_complete :
      {vs : List (AccessHandler W)} {a : Call} {w w' : W}
      → Passes vs a w w'
      → a.err ≡ none
      → (b : Call) × (run_all vs a w ≡ (value b, w')) × (b.err ≡ none)
  unfolding run_all
  run_all_complete {a} done fine = (a, refl, fine)
  run_all_complete (next ran fine_b rest) fine =
      let (b, ended, granted) = run_all_complete rest fine_b in
      (b, ground (arith, ran, fine_b, ended), granted)

  run_event_complete :
      (vs : List (AccessHandler W)) (a : Call) (w w' : W)
      → Passes vs a w w'
      → a.err ≡ none
      → (b : Call) × (run_event vs a w ≡ (value b, w')) × (b.err ≡ none)
  unfolding run_event
  run_event_complete [] a w w' h fine =
      let (b, ended, granted) = run_all_complete h fine in
      (access_granted a, unfold run_all in ground (arith, ended), refl)
  run_event_complete (v ∷ vs) a w w' h fine = run_all_complete h fine

  run_events-declared :
      (k : Check) (es : List (Event W)) (p : Pattern) (a : Call) (e : Event W)
      → declared p es ≡ some e
      → run_events k es p a ≡ run_event (validators_of k e) a
  unfolding run_events
  run_events-declared k [] p a e h = cc
  run_events-declared k (d ∷ es) p a e h =
      elim (Bool-cases (text_eq (endpoint_name d.resource) (endpoint_name p))) [
        | inl same ↦
            let same_event : d ≡ e = ground (arith, same, h) in
            rw same (ap (λ x. run_event (validators_of k x) a) same_event)
        | inr other ↦ rw other (run_events-declared k es p a e (rw other at h))
      ]

  run_events-Passes :
      (k : Check) (es : List (Event W)) (p : Pattern) (a b : Call) (w w' : W)
      → run_events k es p a w ≡ (value b, w')
      → b.err ≡ none
      → (e : Event W) × (declared p es ≡ some e) × Passes (validators_of k e) a w w'
  unfolding run_events
  run_events-Passes k [] p a b w w' h granted = absurd (unfold access_denied in ground arith)
  run_events-Passes k (e ∷ es) p a b w w' h granted =
      elim (Bool-cases (text_eq (endpoint_name e.resource) (endpoint_name p))) [
        | inl same ↦ (
          e,
          ground (arith, same),
          run_event-Passes (validators_of k e) a b w w' (rw (same, run_events) at h) granted,
        )
        | inr other ↦
            let (d, found, passes) =
              run_events-Passes k es p a b w w' (rw (other, run_events) at h) granted in
            (d, ground (arith, other), passes)
      ]

  -- What the payload of an access has to be for a check to grant it: a pattern with a method, of
  -- which the service declares an event, all of whose validators pass.
  pub record IsGranted (c : Codec) (k : Check) (events : Option (List (Event W))) (a : Call)
      (w w' : W) : Type 0 where
    pub p : Pattern
    pub es : List (Event W)
    pub e : Event W
    pub reads : c.pattern_from_json a.raw_data ≡ decoded p
    pub with_events : events ≡ some es
    pub first : declared p es ≡ some e
    pub passes : Passes (validators_of k e) a w w'

  validate-decoded :
      (c : Codec) (k : Check) (events : Option (List (Event W))) (a b : Call) (w w' : W)
      (d : Decoded)
      → c.pattern_from_json a.raw_data ≡ d
      → validate c k events a w ≡ (value b, w')
      → b.err ≡ none
      → IsGranted c k events a w w'
  unfolding validate access_denied
  validate-decoded c k events a b w w' malformed e h granted =
      absurd (ground (arith, rw (e, validate) at h))
  validate-decoded c k none a b w w' no_method e h granted =
      absurd (ground (arith, rw (e, validate) at h))
  validate-decoded c k (some es) a b w w' no_method e h granted =
      absurd (ground (arith, rw (e, validate) at h))
  validate-decoded c k none a b w w' (decoded p) e h granted =
      absurd (ground (arith, rw (e, validate) at h))
  validate-decoded c k (some es) a b w w' (decoded p) e h granted =
      let (d, first, passes) = run_events-Passes k es p a b w w' (rw (e, validate) at h) granted in
      record {
        p = p;
        es = es;
        e = d;
        reads = e;
        with_events = refl;
        first = first;
        passes = passes;
      }

  -- A check that begins with no error grants access exactly when the payload is a pattern, the
  -- first event of the service with its generic name exists, and its validators all pass; an
  -- event without validators is granted.
  pub validate-grants_iff :
      (c : Codec) (k : Check) (events : Option (List (Event W))) (a : Call) (w w' : W)
      → a.err ≡ none
      → ((b : Call) × (validate c k events a w ≡ (value b, w')) × (b.err ≡ none))
        ↔ IsGranted c k events a w w'
  unfolding validate
  validate-grants_iff c k events a w w' fine = (
    λ (b, ended, granted).
        validate-decoded c k events a b w w' (c.pattern_from_json a.raw_data) refl ended granted,
    λ g.
        let (b, ended, granted) = run_event_complete (validators_of k g.e) a w w' g.passes fine in
        (
          b,
          rw (g.reads, validate)
              (rw g.with_events
                (ap (λ f. f w) (run_events-declared k g.es g.p a g.e g.first) ∙ ended)),
          granted,
        ),
  )
