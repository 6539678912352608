-- ===== src/Migrations.antt =====
-- Open and migrate of internal/db/db.go: the versions that are recorded, and the tables with the names
-- of their columns. Indexes, types, defaults and keys are left out. `faults` lists whether each next
-- call fails.
pub mod Versions
use my_personal_cloud.Prelude.{
  ℕ, ◌==◌, ◌++◌, Bool, true, false, not, ◌&&◌, List, [], ◌∷◌, Option, none, some, Text, codes, ltb,
  leb, any, map, if◌then◌else◌,
}
use my_personal_cloud.World.{next_fault, later_faults}

abbrev pub Schema : Type 0
Schema = List (Text × List Text)

pub record Store : Type 0 where
  pub has_versions : Bool
  pub versions : List ℕ
  pub schema : Schema
  pub faults : List Bool

pub data MigrateError : Type 0 where
  open_failed : MigrateError
  ping_failed : MigrateError
  create_failed : MigrateError
  read_failed : MigrateError
  begin_failed : MigrateError
  step_failed : ℕ → MigrateError
  record_failed : ℕ → MigrateError
  commit_failed : MigrateError

pub data Result : Type 0 where
  migrated : Result
  failed : MigrateError → Result

abbrev pub used : Store → Store
used s = record s { faults = later_faults s.faults }

-- `CREATE TABLE IF NOT EXISTS`
abbrev pub create_table : Text → List Text → Schema → Schema
create_table name columns schema =
    if any (λ t. t.0 == name) schema then schema else schema ++ (name, columns) ∷ []

abbrev pub has_column : Text → Text → Schema → Bool
has_column name column schema = any (λ t. t.0 == name && any (λ c. c == column) t.1) schema

abbrev pub extend_table : Text → Text → Text × List Text → Text × List Text
extend_table name column (table, columns) =
    if table == name then (table, columns ++ column ∷ []) else (table, columns)

-- `ALTER TABLE … ADD COLUMN`: an error for a table that is not there or has the column.
abbrev pub add_column : Text → Text → Schema → Option Schema
add_column name column schema =
    if any (λ t. t.0 == name) schema && not (has_column name column schema)
    then some (map (extend_table name column) schema)
    else none

abbrev pub users_columns : List Text
users_columns = codes "id" ∷ codes "username" ∷ codes "password_hash" ∷ codes "created_at" ∷ []

abbrev pub files_columns : List Text
files_columns =
    codes "id"
    ∷ codes "user_id"
    ∷ codes "name"
    ∷ codes "parent_path"
    ∷ codes "storage_path"
    ∷ codes "mime_type"
    ∷ codes "size_bytes"
    ∷ codes "is_image"
    ∷ codes "created_at"
    ∷ []

abbrev pub folders_columns : List Text
folders_columns =
    codes "id" ∷ codes "user_id" ∷ codes "name" ∷ codes "parent_path" ∷ codes "created_at" ∷ []

abbrev pub share_links_columns : List Text
share_links_columns =
    codes "id"
    ∷ codes "user_id"
    ∷ codes "file_id"
    ∷ codes "folder_id"
    ∷ codes "token"
    ∷ codes "expires_at"
    ∷ codes "max_views"
    ∷ codes "current_views"
    ∷ codes "is_active"
    ∷ codes "created_at"
    ∷ []

abbrev pub create_tables : Schema → Option Schema
create_tables schema = some (
    create_table (codes "folders") folders_columns (
      create_table (codes "files") files_columns
        (create_table (codes "users") users_columns schema)))

abbrev pub add_deleted_at : Schema → Option Schema
add_deleted_at = add_column (codes "files") (codes "deleted_at")

abbrev pub create_share_links : Schema → Option Schema
create_share_links schema = some (create_table (codes "share_links") share_links_columns schema)

abbrev pub Migration : Type 0
Migration = ℕ × (Schema → Option Schema)

abbrev pub steps : List Migration
steps = (1, create_tables) ∷ (2, add_deleted_at) ∷ (3, create_share_links) ∷ []

-- `SELECT COALESCE(MAX(version), 0) FROM schema_version`
unfoldable pub max_version : List ℕ → ℕ
max_version [] = 0
max_version (v ∷ vs) = let m = max_version vs in if ltb m v then v else m

abbrev pub recorded : ℕ → Schema → (Store → Result × Store) → Store → Result × Store
recorded v schema' rest s =
    if next_fault s.faults
    then (failed (record_failed v), used s)
    else rest (record (used s) { schema = schema'; versions = s.versions ++ v ∷ [] })

abbrev pub stepped : ℕ → Option Schema → (Store → Result × Store) → Store → Result × Store
stepped v none rest s = (failed (step_failed v), s)
stepped v (some schema') rest s = recorded v schema' rest s

-- The loop over the steps: those up to the version found are passed over.
unfoldable pub run_steps : List Migration → ℕ → Store → Result × Store
run_steps [] current s = (migrated, s)
run_steps ((v, sql) ∷ steps) current s =
    let rest = run_steps steps current in
    if leb v current
    then rest s
    else stepped v (if next_fault s.faults then none else sql s.schema) rest (used s)

-- `tx.Rollback`
abbrev pub rolled_back : Store → Store → Store
rolled_back saved s = record s { versions = saved.versions; schema = saved.schema }

-- `tx.Commit`, or the deferred rollback.
abbrev pub finished : Store → Result × Store → Result × Store
finished saved (failed e, s) = (failed e, rolled_back saved s)
finished saved (migrated, s) =
    if next_fault s.faults
    then (failed commit_failed, rolled_back saved (used s))
    else (migrated, used s)

abbrev pub in_transaction : Store → Result × Store
in_transaction s =
    if next_fault s.faults
    then (failed begin_failed, used s)
    else finished s (run_steps steps (max_version s.versions) (used s))

abbrev pub with_versions : Store → Result × Store
with_versions s =
    if next_fault s.faults then (failed read_failed, used s) else in_transaction (used s)

unfoldable pub migrate : Store → Result × Store
migrate s =
    if next_fault s.faults
    then (failed create_failed, used s)
    else with_versions (record (used s) { has_versions = true })

abbrev pub pinged : Store → Result × Store
pinged s = if next_fault s.faults then (failed ping_failed, used s) else migrate (used s)

-- `Open`
unfoldable pub open_store : Store → Result × Store
open_store s = if next_fault s.faults then (failed open_failed, used s) else pinged (used s)
