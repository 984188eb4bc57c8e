-- ===== src/Tests/Lock.antt =====
-- Runs of the locks of version 1 (pkg/service/base-service.go).
use spike_broker.Prelude.{
  ℕ, ◌+◌, ◌*◌, ◌≤◌, ◌≡◌, refl, inl, true, none, some, List, [], ◌∷◌, arith, Text, codes, text_eq,
  lookup, insert,
}
use spike_broker.V1.Lock.{lock, taken, try_save, is_locked, found, ApiLock}
use spike_broker.V1.Lock.Polling.{lock-returns}
use spike_broker.V1.Lock.System.{
  Transaction, of_try_lock, step, start, trying, reading, passing, System, Reachable,
}
use spike_broker.V1.Lock.Exclusion.{holders-Exclusive}

abbrev table : List (Text × ApiLock)
table = (codes "m", taken (codes "k") (codes "m") 1001000) ∷ []

-- The owner of the lock has gone away: its lock is taken over, though each attempt takes 7 ms.
lock-returns_example :
    (t : ℕ) × (lock (λ n. 7) (codes "j") (codes "m") 601 1002000 table
      ≡ (some t, insert (codes "m") (taken (codes "j") (codes "m") t) table))
    × (t ≤ 1002000 + 300000 + 600 * 7)
unfolding lookup text_eq
lock-returns_example =
    lock-returns (λ n. 7) 7 (λ n. omega arith) (codes "j") (codes "m") 1002000 table (omega arith)

abbrev of_j : Transaction
of_j = record {
  call = of_try_lock;
  key = codes "j";
  lock = codes "m";
  row = some (taken (codes "k") (codes "m") 1001000);
}

-- The time at which `j` has read the row that `k` has left.
abbrev read_by_j : System
read_by_j = record { now = 1302500; table = table; transactions = of_j ∷ []; holders = [] }

abbrev held_by_j : System
held_by_j = record {
  now = 1302900;
  table = (codes "m", taken (codes "j") (codes "m") 1302800) ∷ [];
  transactions = [];
  holders = (codes "j", 1302800) ∷ [];
}

read_by_j-Reachable : Reachable (codes "m") 50 read_by_j
unfolding lookup text_eq
read_by_j-Reachable =
    step (start 1302500 table (taken (codes "k") (codes "m") 1001000) refl)
      (reading of_try_lock (codes "j") (codes "m") tt refl)

held_by_j-Reachable : Reachable (codes "m") 50 held_by_j
unfolding try_save is_locked insert lookup text_eq
held_by_j-Reachable =
    step (step read_by_j-Reachable (passing 400 refl))
      (trying [] [] of_j 1302700 1302800 true refl refl (omega arith) (omega arith) refl)

abbrev newest : Text × ℕ
newest = (codes "j", 1302800)

holders-Exclusive_example : newest ≡ newest
holders-Exclusive_example =
    holders-Exclusive (codes "m") 50 held_by_j newest newest held_by_j-Reachable (inl refl)
      (inl refl) (omega arith) (omega arith)

-- Two services that have read that there is no row both take the lock.
first_of_two :
    try_save (codes "k") (codes "m") 400000 400000 true (found none) []
    ≡ (true, (codes "m", taken (codes "k") (codes "m") 400000) ∷ [])
unfolding try_save is_locked insert
first_of_two = refl

second_of_two :
    try_save
      (codes "j")
      (codes "m")
      400000
      400000
      true
      (found none)
      ((codes "m", taken (codes "k") (codes "m") 400000) ∷ [])
    ≡ (true, (codes "m", taken (codes "j") (codes "m") 400000) ∷ [])
unfolding try_save is_locked insert text_eq
second_of_two = refl
