-- ===== src/V1/Lock/System.antt =====
-- Who holds a lock (pkg/service/base-service.go), as a system of services that share the table, and whose
-- transactions overlap.
use spike_broker.Prelude.{
  ℕ, ◌+◌, ◌≤◌, ◌≡◌, ◌⊎◌, Bool, true, false, not, ◌&&◌, Option, some, List, [], ◌∷◌, ◌++◌,
  if◌then◌else◌, All, Text, text_eq, lookup,
}
use spike_broker.Go.{Exit, value, panic}
use spike_broker.V1.Lock.{ApiLock, Table, found, is_none, try_save, unlock_save}

-- A transaction that has read its row, by the call that it belongs to.
pub data LockCall : Type 0 where
  of_try_lock of_unlock : LockCall

pub record Transaction : Type 0 where
  pub call : LockCall
  pub key : Text
  pub lock : Text
  pub row : Option ApiLock

-- The time, the table, the transactions under way, and who believes to hold the lock `name`: the key of
-- a service with the time that its `TryLock` has saved before it returned true.
pub record System : Type 0 where
  pub now : ℕ
  pub table : Table
  pub transactions : List Transaction
  pub holders : List (Text × ℕ)

abbrev pub drop_key : Text → List (Text × ℕ) → List (Text × ℕ)
drop_key key [] = []
drop_key key ((k, t) ∷ hs) =
    let rest = drop_key key hs in if text_eq k key then rest else (k, t) ∷ rest

abbrev pub In : Text × ℕ → List (Text × ℕ) → Type 0
In a [] = ⊥
In a (b ∷ hs) = (a ≡ b) ⊎ In a hs

-- Whether a transaction has locked the row: there is nothing to lock where there is no row.
abbrev pub locks : Text → Transaction → Bool
locks other x = text_eq x.lock other && not (is_none x.row)

abbrev pub IsFree : Text → List Transaction → Type 0
IsFree other xs = All (λ (x : Transaction). locks other x ≡ false) xs

-- The clocks of the services are at most `skew` ahead of the time.
module _ (name : Text) (skew : ℕ) where
  -- After the transaction `x` of `TryLock`, which has saved the time `time`; `xs` are the others.
  abbrev pub tried : Transaction → List Transaction → ℕ → System → Bool × Table → System
  tried x xs time s (true, db) = record s {
    table = db;
    transactions = xs;
    holders = if text_eq x.lock name then (x.key, time) ∷ s.holders else s.holders;
  }
  tried x xs time s (false, db) = record s { table = db; transactions = xs }

  abbrev pub released : Transaction → List Transaction → System → Exit (Unit {0}) × Table → System
  released x xs s (value a, db) = record s {
    table = db;
    transactions = xs;
    holders = if text_eq x.lock name then drop_key x.key s.holders else s.holders;
  }
  released x xs s (panic q, db) = record s { table = db; transactions = xs }

  -- One step: time passes; a call reads a row, for which it waits until no transaction has it locked;
  -- or the transaction of a call checks what it has read, at the time `now` of its service's clock, and
  -- ends. This lock or another one.
  pub data Step (s t : System) : Type 0 where
    passing : (d : ℕ) → t ≡ record s { now = s.now + d } → Step s t
    reading :
        (call : LockCall) (key other : Text)
        → IsFree other s.transactions
        → t ≡ record s {
          transactions =
              record { call = call; key = key; lock = other; row = lookup other s.table }
              ∷ s.transactions;
        }
        → Step s t
    trying :
        (before after : List Transaction) (x : Transaction) (now time : ℕ) (saved : Bool)
        → s.transactions ≡ before ++ (x ∷ after)
        → x.call ≡ of_try_lock
        → now ≤ s.now + skew
        → time ≤ s.now + skew
        → t
          ≡ tried x
              (before ++ after)
              time
              s
              (try_save x.key x.lock now time saved (found x.row) s.table)
        → Step s t
    releasing :
        (before after : List Transaction) (x : Transaction) (now : ℕ) (saved : Bool)
        → s.transactions ≡ before ++ (x ∷ after)
        → x.call ≡ of_unlock
        → t
          ≡ released x
              (before ++ after)
              s
              (unlock_save x.key x.lock now saved (found x.row) s.table)
        → Step s t

  -- The states that come about from one in which nobody believes to hold the lock, no transaction is
  -- under way, and the lock has a row, as it has once it has been taken.
  pub data Reachable : System → Type 0 where
    start :
        (now : ℕ) (db : Table) (l : ApiLock)
        → lookup name db ≡ some l
        → Reachable (record { now = now; table = db; transactions = []; holders = [] })
    step : {s t : System} → Reachable s → Step s t → Reachable t
