-- ===== src/V1/Migration.antt =====
-- pkg/models/migration/base.go and pkg/models/schema.go: the versions of a service's tables.
pub mod Settled
use spike_broker.Prelude.{
  ℕ, zero, suc, ◌+◌, ◌-◌, ◌*◌, ◌/◌, ◌%◌, ◌^◌, ◌≤◌, ◌<◌, ◌≡◌, refl, sym, ap, ◌∙◌, ◌≢◌, ◌↔◌, ◌⊎◌, inl,
  inr, Bool, true, false, not, ◌&&◌, ◌||◌, Option, none, some, List, [], ◌∷◌, ◌++◌, map, arith, ltb,
  leb, ◌==◌, if◌then◌else◌, ==_iff, Bool-cases, Option-cases, length, length-append, is_empty, drop,
  find, filter, drop_last, All, All-append, All-left, Text, codes, text_eq, text_eq_refl,
  text_eq_iff, text_eq_ne, Dict, lookup, insert, lookup-insert, contains,
}
use spike_broker.Prelude.Decimal.{ℤ, pos, negsuc, is_digit, parse_int}
use spike_broker.Broker.Message.{plain}
use spike_broker.Go.{Exit, Go, pure, raise, of_error, value, ◌>>=◌}

-- `SchemaVersion`, but for the columns of all tables.
pub record SchemaVersion : Type 0 where
  pub service : Text
  pub version : ℕ

-- The table of schema versions, beside the rest of the database.
pub record Database (W : Type 0) : Type 0 where
  pub schema : List SchemaVersion
  pub world : W

-- A `Versions` by the name of its type and its Migrate, which gives the text of an error. Its Save is
-- that of BaseVersion.
pub record Version (W : Type 0) : Type 0 where
  pub type_name : Text
  pub migrate : Go W (Option Text)

-- `ReplaceAllString(itemStructName, "")` of the expression `[^\d]`.
unfoldable pub digits_of : Text → Text
digits_of [] = []
digits_of (c ∷ s) = let rest = digits_of s in if is_digit c then c ∷ rest else rest

abbrev pub index_at : Option ℤ → Option ℕ
index_at (some (pos n)) = some n
index_at other = none

-- `strconv.Atoi` of these digits; `none` is its error.
unfoldable pub version_index : Text → Option ℕ
version_index name = index_at (parse_int (digits_of name))

-- The query for the last version of a service, which is 0 where there is no row (the same is what a
-- query that fails leaves, which is not modelled). An empty name is no
-- condition to the query.
abbrev pub is_row_of : Text → SchemaVersion → Bool
is_row_of name row = is_empty name || text_eq row.service name

abbrev pub larger : ℕ → ℕ → ℕ
larger m n = if ltb m n then n else m

unfoldable pub latest : Text → List SchemaVersion → ℕ
latest name [] = 0
latest name (row ∷ rows) =
    let rest = latest name rows in if is_row_of name row then larger rest row.version else rest

-- A call that does not touch the table.
abbrev pub outside : {W A : Type 0} → Go W A → Go (Database W) A
outside m s = let (r, w) = m s.world in (r, record s { world = w })

-- How a transaction that makes a row ends: with an error, the table is as before.
abbrev pub created :
    {W : Type 0}
    → SchemaVersion
    → List SchemaVersion
    → Option Text × W
    → Exit (Option Text) × Database W
created row rows (some text, w) = (value (some text), record { schema = rows; world = w })
created row rows (none, w) = (value none, record { schema = row ∷ rows; world = w })

abbrev pub row_of : Text → ℕ → SchemaVersion
row_of name index = record { service = name; version = index }

-- `create` is what the rest of the database does when a row is made: a failure is its text.
module _ {W : Type 0} (create : SchemaVersion → W → Option Text × W) where
  -- `Save` of BaseVersion, in a transaction, which ends with its error.
  unfoldable pub save : Text → ℕ → Go (Database W) (Option Text)
  save name index s = created (row_of name index) s.schema (create (row_of name index) s.world)

  abbrev pub after_save :
      Go (Database W) (Option Text) → Option Text → Go (Database W) (Option Text)
  after_save rest (some text) = pure (some text)
  after_save rest none = rest

  abbrev pub after_migrate :
      Text → ℕ → Go (Database W) (Option Text) → Option Text → Go (Database W) (Option Text)
  after_migrate name index rest (some text) = raise (of_error (plain text))
  after_migrate name index rest none = save name index >>= after_save rest

  abbrev pub by_index :
      ℕ
      → Text
      → Version W
      → Go (Database W) (Option Text)
      → Option ℕ
      → Go (Database W) (Option Text)
  by_index version name item rest none = raise (of_error (plain (codes "strconv.Atoi")))
  by_index version name item rest (some index) =
      if ltb version index then outside item.migrate >>= after_migrate name index rest else rest

  -- The loop over the versions, with the version of the table before it.
  unfoldable pub migrate_each : ℕ → Text → List (Version W) → Go (Database W) (Option Text)
  migrate_each version name [] = pure none
  migrate_each version name (item ∷ items) =
      let rest = migrate_each version name items in
      by_index version name item rest (version_index item.type_name)

  -- `Migrate`.
  unfoldable pub migrate : Text → List (Version W) → Go (Database W) (Option Text)
  migrate name items s = migrate_each (latest name s.schema) name items s
