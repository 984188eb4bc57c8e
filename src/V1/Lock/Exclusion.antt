-- ===== src/V1/Lock/Exclusion.antt =====
-- At most one service holds a lock (pkg/service/base-service.go) whose row exists.
use mathlib.Core.Path.{subst, subst⁻¹}
use spike_broker.Prelude.{
  ℕ, ◌+◌, ◌≤◌, ◌<◌, ◌≡◌, refl, sym, ap, ◌∙◌, inl, inr, Bool, true, false, Option, some, List, [],
  ◌∷◌, ◌++◌, arith, Bool-cases, All, Text, text_eq, text_eq_iff, lookup, insert, lookup-insert,
}
use spike_broker.Go.{value}
use spike_broker.V1.Lock.{
  ApiLock, Table, found, lease, taken, is_locked, is_none, try_save, unlock_save,
}
use spike_broker.V1.Lock.System.{
  Transaction, System, drop_key, In, IsFree, tried, released, Step, passing, reading, trying,
  releasing, Reachable, start, step,
}
use spike_broker.V1.Lock.Owned.{
  owner, Owns, Exists, named, count, IsCurrent, count-append, All-middle, count-IsCurrent,
  IsFree-count, IsCurrent-other, Owns-other, Owns-later, Owns-free, Owns-released,
}

module _ (name : Text) (skew : ℕ) where
  abbrev Rest : ℕ → Table → List Transaction → List (Text × ℕ) → Type 0
  Rest now db xs hs =
      Exists name skew db
      × All (Owns name skew now db) hs
      × All (IsCurrent name skew db) xs
      × (count name skew xs ≤ 1)

  abbrev Inv : System → Type 0
  Inv s = Rest s.now s.table s.transactions s.holders

  -- What holds when the transaction `x` ends, and `xs` are the others.
  abbrev Ends : System → Transaction → List Transaction → Type 0
  Ends s x xs =
      Exists name skew s.table
      × All (Owns name skew s.now s.table) s.holders
      × IsCurrent name skew s.table x
      × All (IsCurrent name skew s.table) xs
      × (named name skew x + count name skew xs ≤ 1)

  Inv-Ends :
      (s : System) (before after : List Transaction) (x : Transaction)
      → s.transactions ≡ before ++ (x ∷ after)
      → Inv s
      → Ends s x (before ++ after)
  Inv-Ends s before after x e (row, owns, current, few) =
      let (own, others) =
        All-middle name skew (IsCurrent name skew s.table) before x after
          (subst (All (IsCurrent name skew s.table)) e current) in
      let sum = ap (count name skew) e ∙ count-append name skew before x after in
      (row, owns, own, others, omega (arith, sum, few))

  kept-Inv :
      (s : System) (x : Transaction) (xs : List Transaction)
      → Ends s x xs
      → Rest s.now s.table xs s.holders
  kept-Inv s x xs (row, owns, own, others, few) = (row, owns, others, omega (arith, few))

  -- A row that is saved by the only transaction of the lock.
  saved_here :
      (s : System) (x : Transaction) (xs : List Transaction) (l : ApiLock) (hs : List (Text × ℕ))
      → text_eq x.lock name ≡ true
      → Ends s x xs
      → All (Owns name skew s.now (insert x.lock l s.table)) hs
      → Rest s.now (insert x.lock l s.table) xs hs
  saved_here s x xs l hs same (row, owns, own, others, few) h =
      let none_left : count name skew xs ≡ 0 = ground (arith, same, few) in
      (
        (l, rw (lookup-insert, same) refl),
        h,
        count-IsCurrent name skew (insert x.lock l s.table) xs none_left,
        omega (arith, none_left),
      )

  saved_other :
      (s : System) (x : Transaction) (xs : List Transaction) (l : ApiLock)
      → text_eq x.lock name ≡ false
      → Ends s x xs
      → Rest s.now (insert x.lock l s.table) xs s.holders
  saved_other s x xs l other ((r, row), owns, own, others, few) = (
    (r, rw (lookup-insert, other) row),
    Owns-other name skew x.lock l s.now s.table s.holders other owns,
    IsCurrent-other name skew x.lock l s.table xs other others,
    omega (arith, few),
  )

  tried_saved-Inv :
      (s : System) (x : Transaction) (xs : List Transaction) (now time : ℕ)
      → now ≤ s.now + skew
      → is_locked now (found x.row) ≡ false
      → Ends s x xs
      → Inv (tried name skew x xs time s (true, insert x.lock (taken x.key x.lock time) s.table))
  tried_saved-Inv s x xs now time early free ends = elim (Bool-cases (text_eq x.lock name)) [
    | inl same ↦
        let equal = (text_eq_iff x.lock name).0 same in
        let l = taken x.key x.lock time in
        let gone =
          Owns-free name skew s.now now s.table (insert x.lock l s.table) s.holders early
            (ap (λ (o : Option ApiLock). is_locked now (found o)) (sym (ends.2 same)) ∙ free)
            ends.1 in
        rw same (
          saved_here s x xs l ((x.key, time) ∷ s.holders) same ends (
            (λ f. rw (lookup-insert, same) (ap (λ (n : Text). some (taken x.key n time)) equal)),
            gone,
          ))
    | inr other ↦ rw other (saved_other s x xs (taken x.key x.lock time) other ends)
  ]

  tried-Inv :
      (s : System) (x : Transaction) (xs : List Transaction) (now time : ℕ) (saved : Bool)
      → now ≤ s.now + skew
      → Ends s x xs
      → Inv
          (tried name skew x xs time s (try_save x.key x.lock now time saved (found x.row) s.table))
  unfolding try_save
  tried-Inv s x xs now time saved early ends = elim (Bool-cases (is_locked now (found x.row))) [
    | inl held ↦ rw held (kept-Inv s x xs ends)
    | inr free ↦ rw free (elim (Bool-cases saved) [
      | inl kept ↦ rw kept (tried_saved-Inv s x xs now time early free ends)
      | inr lost ↦ rw lost (kept-Inv s x xs ends)
    ])
  ]

  released_saved-Inv :
      (s : System) (x : Transaction) (xs : List Transaction) (l : ApiLock)
      → text_eq (found x.row).locked_by x.key ≡ true
      → Ends s x xs
      → Inv (released name skew x xs s (value tt, insert x.lock l s.table))
  released_saved-Inv s x xs l owned ends = elim (Bool-cases (text_eq x.lock name)) [
    | inl same ↦
        let still =
          ap (λ (o : Option ApiLock). text_eq (found o).locked_by x.key) (sym (ends.2 same))
          ∙ owned in
        rw same (
          saved_here s x xs l (drop_key x.key s.holders) same ends (
            Owns-released name skew x.key s.now s.table (insert x.lock l s.table) s.holders still
              ends.1))
    | inr other ↦ rw other (saved_other s x xs l other ends)
  ]

  released-Inv :
      (s : System) (x : Transaction) (xs : List Transaction) (now : ℕ) (saved : Bool)
      → Ends s x xs
      → Inv (released name skew x xs s (unlock_save x.key x.lock now saved (found x.row) s.table))
  unfolding unlock_save
  released-Inv s x xs now saved ends = elim (Bool-cases (text_eq (found x.row).locked_by x.key)) [
    | inl own ↦ rw own (elim (Bool-cases (is_none (found x.row).unlocked_on)) [
      | inl on ↦ rw on (elim (Bool-cases saved) [
        | inl kept ↦
            rw kept
              (released_saved-Inv s x xs (record (found x.row) { unlocked_on = some now }) own ends)
        | inr lost ↦ rw lost (kept-Inv s x xs ends)
      ])
      | inr off ↦ rw off (kept-Inv s x xs ends)
    ])
    | inr alien ↦ rw alien (kept-Inv s x xs ends)
  ]

  read-Inv :
      (s : System) (x : Transaction)
      → IsFree x.lock s.transactions
      → x.row ≡ lookup x.lock s.table
      → Inv s
      → Inv (record s { transactions = x ∷ s.transactions })
  read-Inv s x free reads (row, owns, current, few) = elim (Bool-cases (text_eq x.lock name)) [
    | inl same ↦
        let equal = (text_eq_iff x.lock name).0 same in
        let alone =
          IsFree-count name skew s.table s.transactions row current
            (subst (λ (n : Text). IsFree n s.transactions) equal free) in
        (
          row,
          owns,
          ((λ e. reads ∙ ap (λ (n : Text). lookup n s.table) equal), current),
          rw (same, alone) (omega arith),
        )
    | inr other ↦ (
      row,
      owns,
      ((λ e. absurd (ground (arith, e, other))), current),
      rw other (omega (arith, few)),
    )
  ]

  Step-Inv : (s t : System) → Step name skew s t → Inv s → Inv t
  Step-Inv s t (passing d e) (row, owns, current, few) =
      subst⁻¹ Inv e (row, Owns-later name skew d s.now s.table s.holders owns, current, few)
  Step-Inv s t (reading call key other free e) h = subst⁻¹ Inv e (
      read-Inv s (record { call = call; key = key; lock = other; row = lookup other s.table }) free
        refl h)
  Step-Inv s t (trying before after x now time saved at_x kind early soon e) h =
      subst⁻¹ Inv e
        (tried-Inv s x (before ++ after) now time saved early (Inv-Ends s before after x at_x h))
  Step-Inv s t (releasing before after x now saved at_x kind e) h =
      subst⁻¹ Inv e
        (released-Inv s x (before ++ after) now saved (Inv-Ends s before after x at_x h))

  Reachable-Inv : (s : System) → Reachable name skew s → Inv s
  Reachable-Inv _ (start now db l row) = ((l, row), tt, tt, omega arith)
  Reachable-Inv t (step {s} r a) = Step-Inv s t a (Reachable-Inv s r)

  Owns-mem :
      (now : ℕ) (db : Table) (hs : List (Text × ℕ)) (k : Text) (t : ℕ)
      → In (k, t) hs
      → All (Owns name skew now db) hs
      → Owns name skew now db (k, t)
  Owns-mem now db [] k t m hyp = absurd m
  Owns-mem now db (b ∷ hs) k t (inl e) hyp = subst⁻¹ (Owns name skew now db) e hyp.0
  Owns-mem now db (b ∷ hs) k t (inr m) hyp = Owns-mem now db hs k t m hyp.1

  -- Of a lock that has a row: in a state that comes about from one without holders and transactions,
  -- however the transactions of the services overlap, two of those who believe to hold the lock, and
  -- whose five minutes are not over by any clock, are the same service with the same acquisition. The
  -- clocks are at most `skew` ahead of the time; a read waits for a row that is locked.
  pub holders-Exclusive :
      (s : System) (a b : Text × ℕ)
      → Reachable name skew s
      → In a s.holders
      → In b s.holders
      → s.now + skew < a.1 + lease
      → s.now + skew < b.1 + lease
      → a ≡ b
  holders-Exclusive s (k, t) (j, u) r ma mb fa fb =
      let (row, own, current, few) = Reachable-Inv s r in
      let row_a = Owns-mem s.now s.table s.holders k t ma own fa in
      let row_b = Owns-mem s.now s.table s.holders j u mb own fb in ap owner (sym row_a ∙ row_b)
