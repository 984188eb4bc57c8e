-- ===== src/V1/Migration/Settled.antt =====
-- A migration that is run twice (pkg/models/migration/base.go).
use mathlib.Core.Path.{subst}
use spike_broker.Prelude.{
  ℕ, ◌≤◌, ◌≡◌, refl, sym, ap, inl, inr, Option, none, some, List, [], ◌∷◌, arith, ltb, Bool-cases,
  Option-cases, All, Text, text_eq_refl,
}
use spike_broker.Go.{Exit, value, >>=-eq-value}
use spike_broker.V1.Migration.{
  row_of, SchemaVersion, Database, Version, version_index, latest, outside, created, save,
  after_save, after_migrate, by_index, migrate_each, migrate,
}

module _ {W : Type 0} (create : SchemaVersion → W → Option Text × W) (name : Text) where
  -- The version of a table has been reached.
  abbrev pub Reached : ℕ → Version W → Type 0
  Reached v item = (n : ℕ) × (version_index item.type_name ≡ some n) × (n ≤ v)

  Reached-later :
      (v u : ℕ) (items : List (Version W)) → v ≤ u → All (Reached v) items → All (Reached u) items
  Reached-later v u [] h all = tt
  Reached-later v u (item ∷ items) h ((n, index, le), all) =
      ((n, index, omega (arith, le, h)), Reached-later v u items h all)

  latest-le-cons :
      (row : SchemaVersion) (rows : List SchemaVersion)
      → latest name rows ≤ latest name (row ∷ rows)
  unfolding latest
  latest-le-cons row rows = ground arith

  le-latest-cons :
      (n : ℕ) (rows : List SchemaVersion)
      → n ≤ latest name (record { service = name; version = n } ∷ rows)
  unfolding latest
  le-latest-cons n rows = ground (arith, text_eq_refl name)

  created-latest :
      (n : ℕ) (rows : List SchemaVersion) (r : Option Text × W) (u : Database W)
      → created (row_of name n) rows r ≡ (value none, u)
      → (latest name rows ≤ latest name u.schema) × (n ≤ latest name u.schema)
  created-latest n rows (some text, w) u h = absurd (ground (arith, h))
  created-latest n rows (none, w) u h =
      subst (λ (x : List SchemaVersion). (latest name rows ≤ latest name x) × (n ≤ latest name x))
        (ap (λ (x : Exit (Option Text) × Database W). x.1.schema) h)
        (latest-le-cons (row_of name n) rows, le-latest-cons n rows)

  -- What a successful run leaves behind: the table has reached every version, and has not gone back.
  abbrev After : List (Version W) → Database W → Database W → Type 0
  After items s u =
      (latest name s.schema ≤ latest name u.schema) × All (Reached (latest name u.schema)) items

  -- One version that is run, where the others leave this behind.
  module _ (v n : ℕ) (item : Version W) (items : List (Version W)) (u : Database W)
      (index : version_index item.type_name ≡ some n)
      (rest : (t : Database W)
        → v ≤ latest name t.schema
        → migrate_each create v name items t ≡ (value none, u)
        → After items t u) where
    saved-After :
        (t t' : Database W) (e : Option Text)
        → v ≤ latest name t.schema
        → save create name n t ≡ (value e, t')
        → after_save create (migrate_each create v name items) e t' ≡ (value none, u)
        → After (item ∷ items) t u
    unfolding save
    saved-After t t' (some text) le saved h = absurd (ground (arith, h))
    saved-After t t' none le saved h =
        let (grown, kept) = created-latest n t.schema (create (row_of name n) t.world) t' saved in
        let (more, all) = rest t' (omega (arith, le, grown)) h in
        (omega (arith, grown, more), ((n, index, omega (arith, kept, more)), all))

    ran-After :
        (t : Database W) (e : Option Text)
        → v ≤ latest name t.schema
        → after_migrate create name n (migrate_each create v name items) e t ≡ (value none, u)
        → After (item ∷ items) t u
    ran-After t (some text) le h = absurd (ground (arith, h))
    ran-After t none le h =
        let (e, t', saved, left) =
          >>=-eq-value (save create name n) (after_save create (migrate_each create v name items)) t
            h in
        saved-After t t' e le saved left

    one-After :
        (s : Database W)
        → v ≤ latest name s.schema
        → by_index create v name item (migrate_each create v name items) (some n) s
          ≡ (value none, u)
        → After (item ∷ items) s u
    one-After s le h = elim (Bool-cases (ltb v n)) [
      | inl new ↦
          let (e, w, ran, left) =
            >>=-eq-value (outside item.migrate)
              (after_migrate create name n (migrate_each create v name items)) s (rw new at h) in
          let same = ap (λ (x : Exit (Option Text) × Database W). x.1.schema) ran in
          subst
            (λ (x : List SchemaVersion).
              (latest name x ≤ latest name u.schema)
              × All (Reached (latest name u.schema)) (item ∷ items))
            (sym same)
            (ran-After w e (subst (λ (x : List SchemaVersion). v ≤ latest name x) same le) left)
      | inr old ↦
          let (more, all) = rest s le (rw old at h) in
          (more, ((n, index, ground (arith, old, le, more)), all))
    ]

  each-After :
      (v : ℕ) (items : List (Version W)) (s u : Database W)
      → v ≤ latest name s.schema
      → migrate_each create v name items s ≡ (value none, u)
      → After items s u
  unfolding migrate_each
  each-After v [] s u le h = (ground (arith, h), tt)
  each-After v (item ∷ items) s u le h = elim (Option-cases (version_index item.type_name)) [
    | inl bad ↦ absurd (ground (arith, h, bad))
    | inr (n, index) ↦
        one-After v n item items u index (λ t le' h'. each-After v items t u le' h') s le
          (rw index at h)
  ]

  -- Where all versions have been reached, nothing is run.
  migrate_each-settled :
      (v : ℕ) (items : List (Version W)) (s : Database W)
      → All (Reached v) items
      → migrate_each create v name items s ≡ (value none, s)
  unfolding migrate_each
  migrate_each-settled v [] s all = refl
  migrate_each-settled v (item ∷ items) s ((n, index, le), all) =
      ground (arith, index, migrate_each-settled v items s all)

  -- A migration that has succeeded changes nothing when it is run again, whatever its versions would
  -- do: each is at most the last in the table, so that none of them is run.
  pub migrate-migrate :
      (items : List (Version W)) (s u : Database W)
      → migrate create name items s ≡ (value none, u)
      → migrate create name items u ≡ (value none, u)
  unfolding migrate
  migrate-migrate items s u h =
      let (_, all) = each-After (latest name s.schema) items s u (omega arith) h in
      migrate_each-settled (latest name u.schema) items u all
