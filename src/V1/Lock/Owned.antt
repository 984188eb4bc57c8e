-- ===== src/V1/Lock/Owned.antt =====
-- The row of a lock, its holders and the transactions that have read it
-- (pkg/service/base-service.go).
use spike_broker.Prelude.{
  ℕ, ◌+◌, ◌≤◌, ◌<◌, ◌≡◌, refl, ap, inl, inr, true, false, Option, some, List, [], ◌∷◌, ◌++◌, arith,
  if◌then◌else◌, Bool-cases, All, Text, text_eq, lookup, insert, lookup-insert,
}
use spike_broker.V1.Lock.{ApiLock, Table, found, lease, taken, is_locked}
use spike_broker.V1.Lock.System.{Transaction, drop_key, IsFree}

-- The key and the time that a row keeps.
abbrev pub owner : Option ApiLock → Text × ℕ
owner o = ((found o).locked_by, (found o).locked_on)

module _ (name : Text) (skew : ℕ) where
  abbrev pub Row : Table → Text × ℕ → Type 0
  Row db (key, time) = lookup name db ≡ some (taken key name time)

  -- A holder whose lease has not run out by any clock owns the row.
  abbrev pub Owns : ℕ → Table → Text × ℕ → Type 0
  Owns now db (key, time) = now + skew < time + lease → Row db (key, time)

  abbrev pub Exists : Table → Type 0
  Exists db = (l : ApiLock) × (lookup name db ≡ some l)

  abbrev pub named : Transaction → ℕ
  named x = if text_eq x.lock name then 1 else 0

  -- The transactions of the lock.
  abbrev pub count : List Transaction → ℕ
  count [] = 0
  count (x ∷ xs) = named x + count xs

  -- A transaction of the lock has read the row that is there.
  abbrev pub IsCurrent : Table → Transaction → Type 0
  IsCurrent db x = text_eq x.lock name ≡ true → x.row ≡ lookup name db

  pub count-append :
      (xs : List Transaction) (x : Transaction) (ys : List Transaction)
      → count (xs ++ (x ∷ ys)) ≡ named x + count (xs ++ ys)
  count-append [] x ys = refl
  count-append (y ∷ xs) x ys = let rest = count-append xs x ys in omega (arith, rest)

  pub All-middle :
      (P : Transaction → Type 0) (xs : List Transaction) (x : Transaction) (ys : List Transaction)
      → All P (xs ++ (x ∷ ys))
      → P x × All P (xs ++ ys)
  All-middle P [] x ys h = h
  All-middle P (y ∷ xs) x ys (one, h) =
      let (own, rest) = All-middle P xs x ys h in (own, (one, rest))

  -- Where no transaction is left, any table will do.
  pub count-IsCurrent : (db : Table) (xs : List Transaction) → count xs ≡ 0 → All (IsCurrent db) xs
  count-IsCurrent db [] h = tt
  count-IsCurrent db (x ∷ xs) h = elim (Bool-cases (text_eq x.lock name)) [
    | inl same ↦ absurd (ground (arith, same, h))
    | inr other ↦
        ((λ e. absurd (ground (arith, e, other))), count-IsCurrent db xs (ground (arith, other, h)))
  ]

  pub IsFree-count :
      (db : Table) (xs : List Transaction)
      → Exists db
      → All (IsCurrent db) xs
      → IsFree name xs
      → count xs ≡ 0
  IsFree-count db [] row h free = refl
  IsFree-count db (x ∷ xs) (l, row) h free = elim (Bool-cases (text_eq x.lock name)) [
    | inl same ↦ absurd (ground (arith, same, h.0 same, row, free.0))
    | inr other ↦ let rest = IsFree-count db xs (l, row) h.1 free.1 in ground (arith, other, rest)
  ]

  -- A write to another row.
  pub IsCurrent-other :
      (other : Text) (l : ApiLock) (db : Table) (xs : List Transaction)
      → text_eq other name ≡ false
      → All (IsCurrent db) xs
      → All (IsCurrent (insert other l db)) xs
  IsCurrent-other other l db [] e h = tt
  IsCurrent-other other l db (x ∷ xs) e h =
      ((λ same. rw (lookup-insert, e) (h.0 same)), IsCurrent-other other l db xs e h.1)

  pub Owns-other :
      (other : Text) (l : ApiLock) (now : ℕ) (db : Table) (hs : List (Text × ℕ))
      → text_eq other name ≡ false
      → All (Owns now db) hs
      → All (Owns now (insert other l db)) hs
  Owns-other other l now db [] e h = tt
  Owns-other other l now db ((k, t) ∷ hs) e h =
      ((λ f. rw (lookup-insert, e) (h.0 f)), Owns-other other l now db hs e h.1)

  pub Owns-later :
      (d now : ℕ) (db : Table) (hs : List (Text × ℕ))
      → All (Owns now db) hs
      → All (Owns (now + d) db) hs
  Owns-later d now db [] h = tt
  Owns-later d now db ((k, t) ∷ hs) h = ((λ f. h.0 (omega arith)), Owns-later d now db hs h.1)

  clash :
      (now clock : ℕ) (db : Table) (k : Text) (t : ℕ)
      → clock ≤ now + skew
      → is_locked clock (found (lookup name db)) ≡ false
      → Owns now db (k, t)
      → now + skew < t + lease
      → ⊥
  unfolding is_locked
  clash now clock db k t early e own f =
      let row = own f in
      let locked : is_locked clock (found (lookup name db)) ≡ true = ground (arith, row) in cc

  -- Where the row is free, no lease is left.
  pub Owns-free :
      (now clock : ℕ) (db db' : Table) (hs : List (Text × ℕ))
      → clock ≤ now + skew
      → is_locked clock (found (lookup name db)) ≡ false
      → All (Owns now db) hs
      → All (Owns now db') hs
  Owns-free now clock db db' [] early e h = tt
  Owns-free now clock db db' ((k, t) ∷ hs) early e h = (
    (λ f. absurd (clash now clock db k t early e h.0 f)),
    Owns-free now clock db db' hs early e h.1,
  )

  not_owner :
      (key k : Text) (t : ℕ) (db : Table)
      → text_eq k key ≡ false
      → text_eq (found (lookup name db)).locked_by key ≡ true
      → Row db (k, t)
      → ⊥
  not_owner key k t db other e r =
      let owned = ap (λ (o : Option ApiLock). text_eq (found o).locked_by key) r in cc

  -- Who releases a lock holds it, and is the only one whose lease has not run out.
  pub Owns-released :
      (key : Text) (now : ℕ) (db db' : Table) (hs : List (Text × ℕ))
      → text_eq (found (lookup name db)).locked_by key ≡ true
      → All (Owns now db) hs
      → All (Owns now db') (drop_key key hs)
  Owns-released key now db db' [] e h = tt
  Owns-released key now db db' ((k, t) ∷ hs) e h = elim (Bool-cases (text_eq k key)) [
    | inl same ↦ rw same (Owns-released key now db db' hs e h.1)
    | inr other ↦ rw other (
      (λ f. absurd (not_owner key k t db other e (h.0 f))),
      Owns-released key now db db' hs e h.1,
    )
  ]
