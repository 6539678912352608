-- ===== src/Migrations/Versions.antt =====
-- The versions that a database goes through.
use my_personal_cloud.Prelude.{
  ℕ, ◌≡◌, refl, sym, ap, ◌∙◌, ◌++◌, ◌==◌, ◌⊎◌, inl, inr, Bool, true, List, [], ◌∷◌, Option, none,
  some, Bool-cases, Option-cases, leb, codes, if◌then◌else◌,
}
use my_personal_cloud.World.{next_fault}
use my_personal_cloud.Migrations.{
  Schema, Store, MigrateError, Result, migrated, failed, used, Migration, steps, max_version,
  run_steps, finished, in_transaction, migrate, open_store, users_columns, files_columns,
  folders_columns, share_links_columns, open_failed, ping_failed, create_failed, read_failed,
  begin_failed, commit_failed,
}

-- What the steps do where no call fails.
abbrev planned :
    ℕ
    → Option Schema
    → List ℕ
    → (List ℕ → Schema → Option (List ℕ × Schema))
    → Option (List ℕ × Schema)
planned v none versions rest = none
planned v (some schema) versions rest = rest (versions ++ v ∷ []) schema

unfoldable plan : List Migration → ℕ → List ℕ → Schema → Option (List ℕ × Schema)
plan [] current versions schema = some (versions, schema)
plan ((v, sql) ∷ rest) current versions schema =
    let later = plan rest current in
    if leb v current then later versions schema else planned v (sql schema) versions later

run-plan :
    (ms : List Migration) (current : ℕ) (s s' : Store)
    → run_steps ms current s ≡ (migrated, s')
    → plan ms current s.versions s.schema ≡ some (s'.versions, s'.schema)
unfolding run_steps plan
run-plan [] current s s' h =
    let same : s ≡ s' = cc h in ap (λ (t : Store). some (t.versions, t.schema)) same
run-plan ((v, sql) ∷ ms) current s s' h = elim (Bool-cases (leb v current)) [
  | inl e ↦ rw e (run-plan ms current s s' (rw e at h))
  | inr e ↦ elim (Bool-cases (next_fault s.faults)) [
    | inl f ↦ absurd (cc (rw (e, f) at h))
    | inr f ↦ elim (Option-cases (sql s.schema)) [
      | inl g ↦ absurd (cc (rw (e, f, g) at h))
      | inr (schema', g) ↦
          let first : Store = used s in
          elim (Bool-cases (next_fault first.faults)) [
            | inl k ↦ absurd (cc (rw (e, f, g, k) at h))
            | inr k ↦
                let next : Store = record (used first) {
                  schema = schema';
                  versions = s.versions ++ v ∷ [];
                } in
                rw (e, g) (run-plan ms current next s' (rw (e, f, g, k) at h))
          ]
    ]
  ]
]

-- The states of a database that the code makes: empty, or with the steps up to one of them.
pub data Version : Type 0 where
  empty : Version
  first : Version
  second : Version
  third : Version

abbrev schema_1 : Schema
schema_1 =
    (codes "users", users_columns)
    ∷ (codes "files", files_columns)
    ∷ (codes "folders", folders_columns)
    ∷ []

abbrev schema_2 : Schema
schema_2 =
    (codes "users", users_columns)
    ∷ (codes "files", files_columns ++ codes "deleted_at" ∷ [])
    ∷ (codes "folders", folders_columns)
    ∷ []

abbrev pub versions_of : Version → List ℕ
versions_of empty = []
versions_of first = 1 ∷ []
versions_of second = 1 ∷ 2 ∷ []
versions_of third = 1 ∷ 2 ∷ 3 ∷ []

abbrev pub schema_of : Version → Schema
schema_of empty = []
schema_of first = schema_1
schema_of second = schema_2
schema_of third = schema_2 ++ (codes "share_links", share_links_columns) ∷ []

-- The version's steps are recorded, and their tables are there.
abbrev pub IsAt : Version → Store → Type 0
IsAt v s = (s.versions ≡ versions_of v) × (s.schema ≡ schema_of v)

plan_third :
    (v : Version)
    → plan steps (max_version (versions_of v)) (versions_of v) (schema_of v)
      ≡ some (versions_of third, schema_of third)
unfolding plan max_version ◌==◌
plan_third empty = refl
plan_third first = refl
plan_third second = refl
plan_third third = refl

-- Complete, or an error and the same version.
abbrev pub Migrated : Version → Result × Store → Type 0
Migrated v x =
    ((x.0 ≡ migrated) × IsAt third x.1) ⊎ ((e : MigrateError) × (x.0 ≡ failed e) × IsAt v x.1)

finished-Migrated :
    (v : Version) (saved : Store) (x : Result × Store)
    → IsAt v saved
    → ((s : Store) → x ≡ (migrated, s) → IsAt third s)
    → Migrated v (finished saved x)
finished-Migrated v saved (failed e, s) h k = inr (e, refl, h)
finished-Migrated v saved (migrated, s) h k = elim (Bool-cases (next_fault s.faults)) [
  | inl f ↦ rw f (inr (commit_failed, refl, h))
  | inr f ↦ rw f (inl (refl, k s refl))
]

in_transaction-Migrated : (v : Version) (s : Store) → IsAt v s → Migrated v (in_transaction s)
in_transaction-Migrated v s (hv, hs) = elim (Bool-cases (next_fault s.faults)) [
  | inl f ↦ rw f (inr (begin_failed, refl, (hv, hs)))
  | inr f ↦ rw f (
      finished-Migrated v s (run_steps steps (max_version s.versions) (used s)) (hv, hs)
        (λ s' e.
          let found : plan steps (max_version s.versions) s.versions s.schema
              ≡ some (s'.versions, s'.schema) =
            run-plan steps (max_version s.versions) (used s) s' e in
          let there : some (versions_of third, schema_of third) ≡ some (s'.versions, s'.schema) =
            sym (plan_third v) ∙ (rw (hv, hs) at found) in
          (cc there, cc there)))
]

migrate-Migrated : (v : Version) (s : Store) → IsAt v s → Migrated v (migrate s)
unfolding migrate
migrate-Migrated v s h = elim (Bool-cases (next_fault s.faults)) [
  | inl f ↦ rw f (inr (create_failed, refl, h))
  | inr f ↦
      let made : Store = record (used s) { has_versions = true } in
      rw f (elim (Bool-cases (next_fault made.faults)) [
        | inl g ↦ rw g (inr (read_failed, refl, h))
        | inr g ↦ rw g (in_transaction-Migrated v (used made) h)
      ])
]

-- A database that is empty or has the steps up to some version: whichever calls fail, Open either
-- succeeds and the database has all three steps, recorded and with their tables and columns, or it
-- fails and the database has the steps that it had.
pub open_store-Migrated : (s : Store) (v : Version) → IsAt v s → Migrated v (open_store s)
unfolding open_store
open_store-Migrated s v h = elim (Bool-cases (next_fault s.faults)) [
  | inl f ↦ rw f (inr (open_failed, refl, h))
  | inr f ↦
      let opened : Store = used s in
      rw f (elim (Bool-cases (next_fault opened.faults)) [
        | inl g ↦ rw g (inr (ping_failed, refl, h))
        | inr g ↦ rw g (migrate-Migrated v (used opened) h)
      ])
]

-- Where no call fails, Open succeeds.
pub opened_calm :
    (b : Bool) (v : Version)
    → (open_store (record {
      has_versions = b;
      versions = versions_of v;
      schema = schema_of v;
      faults = [];
    })).0
      ≡ migrated
unfolding open_store migrate run_steps max_version ◌==◌
opened_calm b empty = refl
opened_calm b first = refl
opened_calm b second = refl
opened_calm b third = refl
