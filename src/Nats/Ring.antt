-- ===== src/Nats/Ring.antt =====
-- v2/pkg/broker/providers/nats/provider.go: `globalConnections`, a ring of package container/ring
-- from which connections are taken in turn.
use spike_broker.Prelude.{
  ℕ, zero, suc, ◌≡◌, refl, sym, ap, ◌∙◌, Option, none, some, List, [], ◌∷◌, ◌++◌, arith, length,
  length-append,
}
use mathlib.Core.List.{append_assoc, append-nil}

-- A ring by the value that it points to and those that follow. A connection is a number.
pub record Ring : Type 0 where
  pub here : ℕ
  pub rest : List ℕ

abbrev pub size : Ring → ℕ
size r = suc (length r.rest)

abbrev single : ℕ → Ring
single c = record { here = c; rest = [] }

abbrev next_of : ℕ → List ℕ → Ring
next_of h [] = single h
next_of h (x ∷ xs) = record { here = x; rest = xs ++ (h ∷ []) }

-- `Ring.Next`.
unfoldable pub next : Ring → Ring
next r = next_of r.here r.rest

abbrev link_of : ℕ → ℕ → List ℕ → Ring
link_of c h [] = record { here = h; rest = c ∷ [] }
link_of c h (x ∷ xs) = record { here = x; rest = xs ++ (h ∷ c ∷ []) }

-- `r.Link(&ring.Ring{Value: c})`: `c` stands behind the value of `r`, and the result is the one
-- that stood there.
unfoldable pub link : ℕ → Ring → Ring
link c r = link_of c r.here r.rest

-- One round of the loop that connects.
unfoldable pub add_conn : Option Ring → ℕ → Ring
add_conn none c = single c
add_conn (some r) c = next (link c r)

-- A loop that takes a connection in each round, as `requestConn` gives it.
unfoldable pub with_conns : {S : Type 0} → ℕ → (ℕ → S → S) → Ring → S → Ring × S
with_conns zero body r s = (r, s)
with_conns (suc n) body r s = with_conns n body (next r) (body (next r).here s)

pub size-next : (r : Ring) → size (next r) ≡ size r
unfolding next
size-next r = go r.here r.rest
  where
    go : (h : ℕ) (xs : List ℕ) → size (next_of h xs) ≡ suc (length xs)
    go h [] = refl
    go h (x ∷ xs) = omega (arith, length-append xs (h ∷ []))

size-link : (c : ℕ) (r : Ring) → size (link c r) ≡ suc (size r)
unfolding link
size-link c r = go r.here r.rest
  where
    go : (h : ℕ) (xs : List ℕ) → size (link_of c h xs) ≡ suc (suc (length xs))
    go h [] = refl
    go h (x ∷ xs) = omega (arith, length-append xs (h ∷ c ∷ []))

abbrev pub size_of : Option Ring → ℕ
size_of none = 0
size_of (some r) = size r

pub size-add_conn : (o : Option Ring) (c : ℕ) → size (add_conn o c) ≡ suc (size_of o)
unfolding add_conn
size-add_conn none c = refl
size-add_conn (some r) c = size-next (link c r) ∙ size-link c r

-- The connections of a ring in the order in which they are taken.
abbrev pub turns : Ring → List ℕ
turns r = r.rest ++ (r.here ∷ [])

abbrev pub for_each : {S : Type 0} → (ℕ → S → S) → List ℕ → S → S
for_each body [] s = s
for_each body (c ∷ cs) s = for_each body cs (body c s)

-- The ring after the connections `xs` have been taken.
abbrev shift : ℕ → List ℕ → List ℕ → Ring
shift h [] ys = record { here = h; rest = ys }
shift h (x ∷ xs) ys = shift x xs (ys ++ (h ∷ []))

next-shift :
    (x h : ℕ) (xs ys : List ℕ)
    → next (shift x xs (h ∷ ys)) ≡ record { here = h; rest = ys ++ (x ∷ xs) }
unfolding next
next-shift x h [] ys = refl
next-shift x h (z ∷ zs) ys =
    next-shift z h zs (ys ++ (x ∷ []))
    ∙ ap (λ (l : List ℕ). record { here = h; rest = l }) (append_assoc ys (x ∷ []) (z ∷ zs))

-- Once round, the ring points to where it started.
next-shift_round : (h : ℕ) (xs : List ℕ) → next (shift h xs []) ≡ record { here = h; rest = xs }
unfolding next
next-shift_round h [] = refl
next-shift_round h (x ∷ xs) = next-shift x h xs []

module _ {S : Type 0} (body : ℕ → S → S) where
  for_each_last :
      (cs : List ℕ) (c : ℕ) (s : S) → for_each body (cs ++ (c ∷ [])) s ≡ body c (for_each body cs s)
  for_each_last [] c s = refl
  for_each_last (d ∷ cs) c s = for_each_last cs c (body d s)

  with_conns-shift :
      (h : ℕ) (xs ys : List ℕ) (s : S)
      → with_conns (suc (length xs)) body (record { here = h; rest = xs ++ ys }) s
        ≡ (next (shift h xs ys), body (next (shift h xs ys)).here (for_each body xs s))
  unfolding with_conns next
  with_conns-shift h [] ys s = refl
  with_conns-shift h (x ∷ xs) ys s =
      ap
        (λ (l : List ℕ).
          with_conns (suc (length xs)) body (record { here = x; rest = l }) (body x s))
        (append_assoc xs ys (h ∷ []))
      ∙ with_conns-shift x xs (ys ++ (h ∷ [])) (body x s)

  -- As many rounds as there are connections: each is taken once.
  pub with_conns-turns :
      (r : Ring) (s : S) → with_conns (size r) body r s ≡ (r, for_each body (turns r) s)
  with_conns-turns r s =
      ap
        (λ (l : List ℕ).
          with_conns (suc (length r.rest)) body (record { here = r.here; rest = l }) s)
        (sym (append-nil r.rest))
      ∙ with_conns-shift r.here r.rest [] s
      ∙ ap (λ (q : Ring). (q, body q.here (for_each body r.rest s)))
          (next-shift_round r.here r.rest)
      ∙ ap (λ (v : S). (r, v)) (sym (for_each_last r.rest r.here s))
