-- ===== src/V1/Lock/Polling.antt =====
-- `Lock` of pkg/service/base-service.go returns.
use native.Mathlib.Numerals.{unary_clauses}
use spike_broker.Prelude.{
  ℕ, zero, suc, ◌+◌, ◌*◌, ◌≤◌, ◌≡◌, ◌∙◌, inl, inr, true, false, some, arith, Bool-cases, Text,
  insert,
}
use spike_broker.V1.Lock.{
  ApiLock, Table, first, lease, pause, taken, is_locked, try_lock, lock, try_save,
}

try_lock_free :
    (key name : Text) (now : ℕ) (db : Table)
    → is_locked now (first name db) ≡ false
    → try_lock key name now true db ≡ (true, insert name (taken key name now) db)
unfolding try_lock try_save
try_lock_free key name now db h = rw h

try_lock_held :
    (key name : Text) (now : ℕ) (db : Table)
    → is_locked now (first name db) ≡ true
    → try_lock key name now true db ≡ (false, db)
unfolding try_lock try_save
try_lock_held key name now db h = rw h

over : (now : ℕ) (l : ApiLock) → l.locked_on + lease ≤ now → is_locked now l ≡ false
unfolding is_locked
over now l h = ground arith

module _ (late : ℕ → ℕ) (d : ℕ) (bounded : (n : ℕ) → late n ≤ d) (key name : Text) where
  lock_free :
      (n now : ℕ) (db : Table)
      → is_locked now (first name db) ≡ false
      → lock late key name (suc n) now db ≡ (some now, insert name (taken key name now) db)
  unfolding lock
  lock_free n now db h = ground (arith, try_lock_free key name now db h)

  lock_held :
      (n now : ℕ) (db : Table)
      → is_locked now (first name db) ≡ true
      → lock late key name (suc n) now db ≡ lock late key name n (now + pause + late n) db
  unfolding lock
  lock_held n now db h = ground (arith, try_lock_held key name now db h)

  lock-returns_within :
      (n now : ℕ) (db : Table)
      → (first name db).locked_on + lease ≤ now + pause * n
      → (t : ℕ) × (lock late key name (suc n) now db ≡ (some t, insert name (taken key name t) db))
        × (t ≤ now + (pause + d) * n)
  lock-returns_within zero now db h =
      let free = over now (first name db) (omega arith) in
      (now, lock_free 0 now db free, omega arith)
  lock-returns_within (suc n) now db h = elim (Bool-cases (is_locked now (first name db))) [
    | inl held ↦
        let slow = bounded (suc n) in
        let (t, e, soon) = lock-returns_within n (now + pause + late (suc n)) db (omega arith) in
        let wide : (pause + d) * suc n ≡ (pause + d) * n + (pause + d) =
          simp unary_clauses (omega arith) in
        (t, lock_held (suc n) now db held ∙ e, omega (arith, slow, soon, wide))
    | inr free ↦ (now, lock_free (suc n) now db free, omega arith)
  ]

  -- `Lock` on a lock that is not touched by others returns after at most 601 attempts, whoever held it
  -- and never released it; from then on it is held by the service. It takes five minutes at most, and
  -- for each attempt but the last, at most 600, the time `d` that bounds how much longer than half a
  -- second an attempt and its sleep take. The clock of the one who took the lock last is not ahead, and
  -- the row can be saved.
  pub lock-returns :
      (now : ℕ) (db : Table)
      → (first name db).locked_on ≤ now
      → (t : ℕ) × (lock late key name 601 now db ≡ (some t, insert name (taken key name t) db))
        × (t ≤ now + lease + 600 * d)
  lock-returns now db h =
      let (t, e, soon) = lock-returns_within 600 now db (omega arith) in (t, e, omega arith)
