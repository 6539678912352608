-- ===== src/Tests/Versions.antt =====
-- Runs of opening databases.
use my_personal_cloud.Prelude.{◌≡◌, refl, ◌==◌, true, false, [], ◌∷◌}
use my_personal_cloud.Migrations.{
  Store, failed, step_failed, run_steps, max_version, migrate, open_store,
}
use my_personal_cloud.Migrations.Versions.{
  first, versions_of, schema_of, Migrated, open_store-Migrated,
}

-- The database has the first step. All calls until the second step succeed, and this fails.
abbrev at_first : Store
at_first = record {
  has_versions = true;
  versions = versions_of first;
  schema = schema_of first;
  faults = false ∷ false ∷ false ∷ false ∷ false ∷ true ∷ [];
}

open_store-Migrated_example : Migrated first (open_store at_first)
open_store-Migrated_example = open_store-Migrated at_first first (refl, refl)

step_fails : (open_store at_first).0 ≡ failed (step_failed 2)
unfolding open_store migrate run_steps max_version ◌==◌
step_fails = refl
