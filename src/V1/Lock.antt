-- ===== src/V1/Lock.antt =====
-- pkg/service/base-service.go and pkg/models/lock.go: the locks that services of version 1 take in
-- a table of the database. A transaction reads a row, which it locks if there is one, and saves it
-- later. Times are in milliseconds since the year 1. A read is taken not to fail, and no service to
-- have the zero key.
pub mod Exclusion
pub mod Owned
pub mod Polling
pub mod System
use spike_broker.Prelude.{
  ℕ, zero, suc, ◌+◌, ◌-◌, ◌*◌, ◌/◌, ◌%◌, ◌^◌, ◌≤◌, ◌<◌, ◌≡◌, refl, sym, ap, ◌∙◌, ◌≢◌, ◌↔◌, ◌⊎◌, inl,
  inr, Bool, true, false, not, ◌&&◌, ◌||◌, Option, none, some, List, [], ◌∷◌, ◌++◌, map, arith, ltb,
  leb, ◌==◌, if◌then◌else◌, ==_iff, Bool-cases, Option-cases, length, length-append, is_empty, drop,
  find, filter, drop_last, All, All-append, All-left, Text, codes, text_eq, text_eq_refl,
  text_eq_iff, text_eq_ne, Dict, lookup, insert, lookup-insert, contains,
}
use spike_broker.Go.{Exit, value, panic, of_value, of_error}
use spike_broker.Broker.Message.{plain}

-- `APILock`.
pub record ApiLock : Type 0 where
  pub name : Text
  pub locked_on : ℕ
  pub unlocked_on : Option ℕ
  pub locked_by : Text

-- The table, by the primary key.
abbrev pub Table : Type 0
Table = Dict ApiLock

-- A lock that is not found keeps the zero value of its type.
abbrev pub zero_lock : ApiLock
zero_lock = record { name = []; locked_on = 0; unlocked_on = none; locked_by = [] }

abbrev pub found : Option ApiLock → ApiLock
found none = zero_lock
found (some l) = l

-- `First(&lock)` with the name.
abbrev pub first : Text → Table → ApiLock
first name db = found (lookup name db)

-- Five minutes.
abbrev pub lease : ℕ
lease = 300000

abbrev pub is_none : {A : Type 0} → Option A → Bool
is_none none = true
is_none (some a) = false

-- `lock.UnlockedOn == nil && lock.LockedOn.After(time.Now().Add(-5*time.Minute))`.
unfoldable pub is_locked : ℕ → ApiLock → Bool
is_locked now l = is_none l.unlocked_on && ltb now (l.locked_on + lease)

abbrev pub taken : Text → Text → ℕ → ApiLock
taken key name now = record { name = name; locked_on = now; unlocked_on = none; locked_by = key }

-- The name under which a lock is kept: that of the service, or the one given.
unfoldable pub lock_name : Text → Option Text → Text
lock_name rid none = codes "nats-mutex-" ++ rid
lock_name rid (some name) = codes "nats-mutex-" ++ name

-- `TryLock` of the service with the key `key`, after it has read the row `l`: `now` is the time of the
-- check, `locked_on` the one that is saved, and `saved` says whether the row can be saved. The table is
-- the one at that time.
unfoldable pub try_save : Text → Text → ℕ → ℕ → Bool → ApiLock → Table → Bool × Table
try_save key name now locked_on saved l db =
    if is_locked now l
    then (false, db)
    else if saved
    then (true, insert name (taken key name locked_on) db)
    else (false, db)

-- `TryLock` where no other transaction comes between its read and its save, and no time passes.
unfoldable pub try_lock : Text → Text → ℕ → Bool → Table → Bool × Table
try_lock key name now saved db = try_save key name now now saved (first name db) db

-- `Unlock` after it has read the row `l`: it panics if the lock is not held by the service, or cannot
-- be saved, and then the transaction is undone.
unfoldable pub unlock_save : Text → Text → ℕ → Bool → ApiLock → Table → Exit (Unit {0}) × Table
unlock_save key name now saved l db =
    if not (text_eq l.locked_by key) || not (is_none l.unlocked_on)
    then (panic (of_value (codes "invalid lock state")), db)
    else if saved
    then (value tt, insert name (record l { unlocked_on = some now }) db)
    else (panic (of_error (plain (codes "save"))), db)

-- The time between two attempts of `Lock`.
abbrev pub pause : ℕ
pause = 500

-- `Lock`, of which `n` attempts are looked at, with no transactions of others between them: the
-- time at which it returns, or none if it waits on. `late n` is the time by which the attempt and the
-- sleep after it take longer than the pause.
unfoldable pub lock : (ℕ → ℕ) → Text → Text → ℕ → ℕ → Table → Option ℕ × Table
lock late key name zero now db = (none, db)
lock late key name (suc n) now db =
    let rest = lock late key name n (now + pause + late n) in
    let (done, db') = try_lock key name now true db in if done then (some now, db') else rest db'
