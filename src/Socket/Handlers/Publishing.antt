-- ===== src/Socket/Handlers/Publishing.antt =====
-- A publish message of a client and the services of version 2 (messagepublish.go, connection.go
-- and specific-provider-base.go).
use mathlib.Core.Path.{subst}
use spike_broker.Prelude.{
  ℕ, ◌<◌, ◌≡◌, sym, ap, ◌∙◌, ◌≢◌, inl, inr, Bool, true, false, Option, none, some, List, [], ◌∷◌,
  arith, if◌then◌else◌, Bool-cases, Option-cases, is_empty, filter, All, Text, text_eq,
}
use spike_broker.Rids.Verb
use spike_broker.Rids.Verb.{MethodType}
use spike_broker.Rids.Method.{Params, update_params}
use spike_broker.Rids.Pattern.{
  Pattern, Any, nil, version, method, set_params, clone, query, new_pattern,
}
use spike_broker.Broker.Message.{ErrorMessage, error_status_forbidden}
use spike_broker.Broker.Call.{Call, set_token, new_call}
use spike_broker.Broker.Provider
use spike_broker.Broker.Provider.{Specific, publish}
use spike_broker.Broker.Provider.Publishing.{publish-monitor-not_event}
use spike_broker.Socket.Endpoint.{
  Lookup, found, failed, pattern_from_endpoint, find_pattern, instantiate, match_pattern, head_text,
}
use spike_broker.Socket.Message.{
  WsMessage, specific_endpoint, State, Session, outside, get_handlers, is_rest,
}
use spike_broker.Socket.Handlers.{
  Peer, Prepared, rejected, ready, prepare, refresh, use_token, look_up, authorize_found, permit,
  if_ready, handle_publish_message, wrap, publish_found,
}
use spike_broker.Go.{pure, >>=-eq-value, value}
use spike_broker.Text.{split}

-- The method and the version of a pattern that is found are those of a pattern in the list.
module _ (R : MethodType → ℕ → Type 0) where
  abbrev Has : Pattern → Type 0
  Has p = R (method p) (version p)

  instantiate-Has :
      (qs : List Text) (params : Params) (p : Pattern) → Has p → Has (instantiate qs params p)
  unfolding instantiate set_params clone query new_pattern update_params
  instantiate-Has [] params p h = h
  instantiate-Has (a ∷ []) params p h = h
  instantiate-Has (a ∷ b ∷ qs) params p h = h

  find_pattern-Has :
      (qs es : List Text) (ps : List Pattern) (q : Pattern)
      → All Has ps
      → find_pattern qs es ps ≡ some q
      → Has q
  unfolding find_pattern
  find_pattern-Has qs es [] q all h = cc
  find_pattern-Has qs es (p ∷ ps) q all h = elim (Option-cases (match_pattern es p)) [
    | inl missed ↦ find_pattern-Has qs es ps q all.1 (rw (missed, find_pattern) at h)
    | inr (params, matched) ↦
        let result : some (instantiate qs params p) ≡ some q = rw (matched, find_pattern) at h in
        let same : instantiate qs params p ≡ q = cc in
        subst Has same (instantiate-Has qs params p all.0)
  ]

  pub pattern_from_endpoint-Has :
      (ps : List Pattern) (endpoint : Text) (q : Pattern)
      → All Has ps
      → pattern_from_endpoint ps endpoint ≡ found q
      → Has q
  unfolding pattern_from_endpoint
  pattern_from_endpoint-Has ps endpoint q all h =
      let qs = split b'?' endpoint in
      find_pattern-Has qs (split b'.' (head_text qs)) ps q all (ground arith)

-- A verb of REST is no event.
rest_verb : (p : Pattern) → is_rest p ≡ true → method p ≢ Verb.event
unfolding text_eq
rest_verb p h e = absurd (ground (arith, rw e at h))

abbrev IsRestV2 : MethodType → ℕ → Type 0
IsRestV2 verb n = (verb ≢ Verb.event) × (1 < n)

get_handlers-IsRestV2 :
    (ps : List Pattern)
    → All (λ p. 1 < version p) ps
    → All (λ p. IsRestV2 (method p) (version p)) (filter is_rest ps)
get_handlers-IsRestV2 [] h = tt
get_handlers-IsRestV2 (p ∷ ps) h = elim (Bool-cases (is_rest p)) [
  | inl rest ↦ rw (rest) ((rest_verb p rest, h.0), get_handlers-IsRestV2 ps h.1)
  | inr other ↦ rw (other) (get_handlers-IsRestV2 ps h.1)
]

module _ {W : Type 0} (peer : Peer W) where
  use_token-handlers :
      (r : Text × Bool) (s s' : State W) {x : Option ErrorMessage}
      → use_token peer r s ≡ (value x, s')
      → s'.session.handlers ≡ s.session.handlers
  use_token-handlers (t, true) s s' h = ground (arith, h)
  use_token-handlers (t, false) s s' h = ground (arith, h)

  refresh-handlers :
      (s s' : State W) {x : Option ErrorMessage}
      → refresh peer s ≡ (value x, s')
      → s'.session.handlers ≡ s.session.handlers
  unfolding refresh
  refresh-handlers s s' h = elim (Bool-cases (is_empty s.session.token)) [
    | inl none_yet ↦ ground (arith, rw (none_yet, refresh) at h)
    | inr has_token ↦
        let (r, v, asked, rest) =
          >>=-eq-value (outside (peer.validate_token s.session.token)) (use_token peer) s
            (rw (has_token, refresh) at h) in
        use_token-handlers r v s' rest ∙ ground (arith, asked)
  ]

  permit-ready :
      (p q : Pattern) (m : Call) (s s' : State W)
      → permit peer p m s ≡ (value (ready q), s')
      → p ≡ q
  permit-ready p q m s s' h =
      let (allowed, v, asked, rest) =
        >>=-eq-value (outside (peer.has_permission (set_token s.session.token m)))
          (λ a. pure (if a then ready p else rejected error_status_forbidden)) s h in
      ground (arith, rest)

  authorize_found-ready :
      (payload : Any) (l : Lookup) (q : Pattern) (s s' : State W)
      → authorize_found peer payload l s ≡ (value (ready q), s')
      → l ≡ found q
  authorize_found-ready payload (failed e) q s s' h = absurd (ground (arith, h))
  authorize_found-ready payload (found p) q s s' h =
      elim (Option-cases (new_call peer.codec p payload)) [
        | inl bad ↦ absurd (ground (arith, h, bad))
        | inr (m, made) ↦ ap found (permit-ready p q m s s' (ground (arith, h, made)))
      ]

  -- The pattern that a handler goes on with is one that it looked up among those given.
  pub prepare-ready :
      (patterns : Session → List Pattern) (m : WsMessage) (q : Pattern) (s s' : State W)
      → prepare peer patterns m s ≡ (value (ready q), s')
      → (u : State W) × (u.session.handlers ≡ s.session.handlers)
        × (pattern_from_endpoint (patterns u.session) (specific_endpoint m) ≡ found q)
  unfolding prepare
  prepare-ready patterns m q s s' h =
      let (x, u, refreshed, rest) = >>=-eq-value (refresh peer) (look_up peer patterns m) s h in
      (u, refresh-handlers s u refreshed, looked_up x u rest)
    where
      looked_up :
          (x : Option ErrorMessage) (u : State W)
          → look_up peer patterns m x u ≡ (value (ready q), s')
          → pattern_from_endpoint (patterns u.session) (specific_endpoint m) ≡ found q
      looked_up (some e) u rest = absurd (ground (arith, rest))
      looked_up none u rest = authorize_found-ready m.payload _ q u s' rest

  publish-rest :
      (p : Pattern) (payload : Any) (token : Option Text) (w w' : W)
      → IsRestV2 (method p) (version p)
      → Provider.publish peer.codec peer.impl p payload token w ≢ (value none, w')
  unfolding publish
  publish-rest p payload token w w' rest h = elim (Option-cases (peer.impl.new_call p payload)) [
    | inl bad ↦ absurd (ground (arith, rw (bad, publish) at h))
    | inr (m, made) ↦ elim (Option-cases (peer.impl.new_call p nil)) [
      | inl bad ↦ absurd (ground (arith, rw (bad, publish) at (rw (made, publish) at h)))
      | inr (meta, made_meta) ↦
          let refusal =
            publish-monitor-not_event peer.codec peer.impl p payload token [] m meta w rest.1 rest.0
              made made_meta in
          cc (refusal.0)
    ]
  ]

  -- Where all resources of a connection are of version 2, no publish message succeeds: whatever
  -- the client sends, the outcome is an error or a panic.
  pub handle_publish_message-fails :
      (m : WsMessage) (s s' : State W)
      → All (λ p. 1 < version p) s.session.handlers
      → handle_publish_message peer m s ≢ (value none, s')
  unfolding handle_publish_message
  handle_publish_message-fails m s s' v2 h =
      let (x, v, prepared, rest) = >>=-eq-value (prepare peer get_handlers m) _ s h in
      goes_on x v prepared rest
    where
      published_none :
          (e : Option ErrorMessage) (t : State W) (p : Pattern) (v : State W)
          → outside (Provider.publish peer.codec peer.impl p m.payload (some v.session.token)) v
            ≡ (value e, t)
          → pure (wrap e) t ≡ (value none, s')
          → IsRestV2 (method p) (version p)
          → ⊥
      published_none (some e) t p v published wrapped rest_v2 = ground (arith, wrapped)
      published_none none t p v published wrapped rest_v2 =
          publish-rest p m.payload (some v.session.token) v.world t.world rest_v2
            (ground (arith, published))

      goes_on :
          (x : Prepared) (v : State W)
          → prepare peer get_handlers m s ≡ (value x, v)
          → if_ready peer (publish_found peer m) x v ≡ (value none, s')
          → ⊥
      goes_on (rejected e) v prepared rest = ground (arith, rest)
      goes_on (ready p) v prepared rest =
          let (u, same, looked) = prepare-ready get_handlers m p s v prepared in
          let rest_v2 : IsRestV2 (method p) (version p) =
            pattern_from_endpoint-Has IsRestV2 (get_handlers u.session) (specific_endpoint m) p
              (unfold get_handlers in
                get_handlers-IsRestV2 u.session.handlers
                  (subst (All (λ p. 1 < version p)) (sym same) v2))
              looked in
          let (e, t, published, wrapped) =
            >>=-eq-value
              (outside (Provider.publish peer.codec peer.impl p m.payload (some v.session.token)))
              (λ e. pure (wrap e)) v rest in
          published_none e t p v published wrapped rest_v2
