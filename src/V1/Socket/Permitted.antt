-- ===== src/V1/Socket/Permitted.antt =====
-- Which pattern a message of a WebSocket client of version 1 gets to (pkg/route/socket).
use mathlib.Core.Path.{subst, subst₂}
use spike_broker.Prelude.{
  ◌≡◌, refl, sym, ap, ◌∙◌, ◌≢◌, ◌⊎◌, inl, inr, Bool, true, false, Option, List, [], ◌∷◌, arith,
  if◌then◌else◌, Bool-cases, All, Text, text_eq, text_eq_iff, Dict,
}
use spike_broker.Text.{split}
use spike_broker.Rids.Verb
use spike_broker.Socket.Message.{WsMessage}
use spike_broker.Go.{value, panic, Exit, pure, continue}
use spike_broker.V1.Rids.{Pattern}
use spike_broker.V1.Auth.{AuthRid}
use spike_broker.V1.Request.{ErrorRequest, error_status_forbidden}
use spike_broker.V1.Endpoint.First.{
  First, Names, Finds, missing, found, pattern_from_endpoint-Finds, First-ne-nil,
}
use spike_broker.V1.Connection.{
  outside, Peer, State, named_pattern, service_patterns, service_of, endpoint_of, socket_call,
}
use spike_broker.V1.Socket.{permit, prepare, by_name, if_allowed}

module _ {W : Type 0} (peer : Peer W) (m : WsMessage) where
  -- The parts of the client's endpoint, and the patterns of the service that it names.
  abbrev pub parts : List Text
  parts = split b'.' (endpoint_of (split b'.' m.endpoint))

  abbrev pub candidates : List (AuthRid W) → List Pattern
  candidates = service_patterns (service_of (split b'.' m.endpoint))

  -- What the authorizer, that of the first service, says of a pattern.
  pub data Asks : List (AuthRid W) → Pattern → State W → Bool → State W → Type 0 where
    unasked :
        {a : AuthRid W} {auths : List (AuthRid W)} {p : Pattern} {s : State W}
        → p.authenticated ≡ false
        → Asks (a ∷ auths) p s true s
    asked :
        {a : AuthRid W} {auths : List (AuthRid W)} {p : Pattern} {s : State W} {w : W} {fine : Bool}
        → p.authenticated ≡ true
        → a.auth.user_have_permission (socket_call peer.codec m p s.token) s.world ≡ (value fine, w)
        → Asks (a ∷ auths) p s fine (record s { world = w })

  -- A message is refused where it names no pattern, has the method INTERNAL, or the authorizer
  -- refuses it. Any other gets to a copy of the first pattern that it names.
  pub data Decides : State W → ErrorRequest ⊎ Pattern → State W → Type 0 where
    unnamed :
        {s : State W}
        → All (λ p. ¬ Names parts m.verb p) (candidates peer.auths)
        → Decides s (inl error_status_forbidden) s
    internal : {s : State W} → m.verb ≡ Verb.internal → Decides s (inl error_status_forbidden) s
    refused :
        {p : Pattern} {s u : State W} (params : Dict Text)
        → First parts m.verb (candidates peer.auths) p
        → Asks peer.auths (record p { params = params }) s false u
        → Decides s (inl error_status_forbidden) u
    ready :
        {p : Pattern} {s u : State W} (params : Dict Text)
        → First parts m.verb (candidates peer.auths) p
        → m.verb ≢ Verb.internal
        → Asks peer.auths (record p { params = params }) s true u
        → Decides s (inr (record p { params = params })) u

  candidates-ne-nil :
      (auths : List (AuthRid W)) (p : Pattern)
      → First parts m.verb (candidates auths) p
      → auths ≢ []
  unfolding service_patterns
  candidates-ne-nil [] p first = absurd (First-ne-nil parts m.verb [] p first refl)
  candidates-ne-nil (a ∷ auths) p first = λ e. cc

  abbrev by_answer : Pattern → Bool → ErrorRequest ⊎ Pattern
  by_answer p true = inr p
  by_answer p false = inl error_status_forbidden

  answered-Asks :
      (a : AuthRid W) (auths : List (AuthRid W)) (p : Pattern) (s u : State W)
      (r : ErrorRequest ⊎ Pattern) (e : Exit Bool × W)
      → p.authenticated ≡ true
      → a.auth.user_have_permission (socket_call peer.codec m p s.token) s.world ≡ e
      → continue (if_allowed peer p) (e.0, record s { world = e.1 }) ≡ (value r, u)
      → (fine : Bool) × Asks (a ∷ auths) p s fine u × (r ≡ by_answer p fine)
  answered-Asks a auths p s u r (panic x, w) needed asks h = absurd (ground (arith, h))
  answered-Asks a auths p s u r (value true, w) needed asks h = (
    true,
    subst (λ v. Asks (a ∷ auths) p s true v)
        (ap (λ (x : Exit (ErrorRequest ⊎ Pattern) × State W). x.1) h) (asked needed asks),
    ground (arith, h),
  )
  answered-Asks a auths p s u r (value false, w) needed asks h = (
    false,
    subst (λ v. Asks (a ∷ auths) p s false v)
        (ap (λ (x : Exit (ErrorRequest ⊎ Pattern) × State W). x.1) h) (asked needed asks),
    ground (arith, h),
  )

  permit-needed :
      (a : AuthRid W) (auths : List (AuthRid W)) (p : Pattern) (s : State W)
      → p.authenticated ≡ true
      → permit peer (a ∷ auths) m p s
        ≡ continue
            (if_allowed peer p)
            (outside (a.auth.user_have_permission (socket_call peer.codec m p s.token)) s)
  unfolding permit
  permit-needed a auths p s needed =
      ap
        (λ (b : Bool).
          (if b
            then continue (if_allowed peer p)
                (outside (a.auth.user_have_permission (socket_call peer.codec m p s.token)) s)
            else (value (inr p), s)))
        needed

  permit-free :
      (a : AuthRid W) (auths : List (AuthRid W)) (p : Pattern) (s : State W)
      → p.authenticated ≡ false
      → permit peer (a ∷ auths) m p s ≡ (value (inr p), s)
  unfolding permit
  permit-free a auths p s free =
      ap
        (λ (b : Bool).
          (if b
            then continue (if_allowed peer p)
                (outside (a.auth.user_have_permission (socket_call peer.codec m p s.token)) s)
            else (value (inr p), s)))
        free

  permit-Asks :
      (auths : List (AuthRid W)) (p : Pattern) (s u : State W) (r : ErrorRequest ⊎ Pattern)
      → auths ≢ []
      → permit peer auths m p s ≡ (value r, u)
      → (fine : Bool) × Asks auths p s fine u × (r ≡ by_answer p fine)
  unfolding permit
  permit-Asks [] p s u r some_left h = absurd (some_left refl)
  permit-Asks (a ∷ auths) p s u r some_left h = elim (Bool-cases p.authenticated) [
    | inl needed ↦
        answered-Asks a auths p s u r
          (a.auth.user_have_permission (socket_call peer.codec m p s.token) s.world) needed refl
          (sym (permit-needed a auths p s needed) ∙ h)
    | inr free ↦ (
      true,
      subst (λ v. Asks (a ∷ auths) p s true v)
          (ap (λ (x : Exit (ErrorRequest ⊎ Pattern) × State W). x.1)
            (sym (permit-free a auths p s free) ∙ h))
          (unasked free),
      ground (arith, sym (permit-free a auths p s free) ∙ h),
    )
  ]

  permitted-Decides :
      (p : Pattern) (params : Dict Text) (s u : State W) (r : ErrorRequest ⊎ Pattern) (fine : Bool)
      → First parts m.verb (candidates peer.auths) p
      → m.verb ≢ Verb.internal
      → Asks peer.auths (record p { params = params }) s fine u
      → r ≡ by_answer (record p { params = params }) fine
      → Decides s r u
  permitted-Decides p params s u r true first external asks same =
      subst (λ x. Decides s x u) (sym same) (ready params first external asks)
  permitted-Decides p params s u r false first external asks same =
      subst (λ x. Decides s x u) (sym same) (refused params first asks)

  forbidden-Decides :
      (s u : State W) (r : ErrorRequest ⊎ Pattern)
      → Decides s (inl error_status_forbidden) s
      → pure (inl error_status_forbidden) s ≡ (value r, u)
      → Decides s r u
  forbidden-Decides s u r d h =
      subst₂ (λ x v. Decides s x v) (ground (arith, h)) (ground (arith, h)) d

  by_name-Decides :
      (o : Option Pattern) (s u : State W) (r : ErrorRequest ⊎ Pattern)
      → Finds parts m.verb (candidates peer.auths) o
      → by_name peer m o s ≡ (value r, u)
      → Decides s r u
  by_name-Decides _ s u r (missing none_named) h = forbidden-Decides s u r (unnamed none_named) h
  by_name-Decides _ s u r (found {p} params first) h =
      elim (Bool-cases (text_eq m.verb Verb.internal)) [
        | inl inside ↦
            forbidden-Decides s u r (internal ((text_eq_iff m.verb Verb.internal).0 inside))
              (rw inside at h)
        | inr external ↦
            let q = record p { params = params } in
            let (fine, asks, same) =
              permit-Asks peer.auths q s u r (candidates-ne-nil peer.auths p first)
                (rw external at h) in
            permitted-Decides p params s u r fine first
              (λ e. absurd (ground (arith, external, (text_eq_iff m.verb Verb.internal).1 e))) asks
              same
      ]

  -- Whatever the first part of the handlers for requests, publications and monitors ends with, it is
  -- decided as `Decides` says, with the authorizer asked once or not at all.
  pub prepare-Decides :
      (s u : State W) (r : ErrorRequest ⊎ Pattern) → prepare peer m s ≡ (value r, u) → Decides s r u
  unfolding prepare named_pattern
  prepare-Decides s u r h =
      by_name-Decides (named_pattern peer.auths m) s u r
        (pattern_from_endpoint-Finds (candidates peer.auths) (endpoint_of (split b'.' m.endpoint))
          m.verb)
        h
