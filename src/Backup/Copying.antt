-- ===== src/Backup/Copying.antt =====
-- What RestoreBackup of internal/backup/backup.go does on the disk: `copyFile`, `copyDir`,
-- `validateSQLite` and the loop that extracts the archive.
use my_personal_cloud.Prelude.{
  ◌++◌, ◌==◌, Bool, true, false, List, [], ◌∷◌, Text, codes, if◌then◌else◌, take,
}
use my_personal_cloud.GoPath.{slash, join_path}
use my_personal_cloud.World.{Response, error, Handler, ◌>>=◌, ◌>>◌, pure, require}
use my_personal_cloud.Storage.{rel_path, write_file, attempt, change_disk}
use my_personal_cloud.Backup.{Bytes}
use my_personal_cloud.Backup.Archive.{Entry, database_name, storage_name, walk, try_call, try_read}

abbrev pub is_directory : Text → Bool
is_directory [] = false
is_directory (c ∷ []) = c ∷ [] == slash ∷ []
is_directory (c ∷ d ∷ s) = is_directory (d ∷ s)

-- "SQLite format 3" and a zero.
abbrev pub magic : Bytes
magic = codes "SQLite format 3" ++ 0 ∷ []

module _ {B : Type 0} where
  -- `os.Create` and `io.Copy`; the file is empty where the copying fails.
  unfoldable pub put_file : Text → Bytes → Response B → Response B → Handler B (Unit {0})
  put_file path content no_file no_copy = do
    try_call no_file
    change_disk (write_file path [])
    try_call no_copy
    change_disk (write_file path content)

  -- The directory that `os.MkdirTemp` makes receives one entry of the archive.
  unfoldable pub extract_entry : Text → Entry → Handler B (Unit {0})
  extract_entry tmp e = if is_directory e.name then try_call (error 400 "mkdir") else do
    try_call (error 400 "mkdir parent")
    try_call (error 400 "open zip entry")
    put_file (join_path tmp e.name) e.content (error 400 "create") (error 400 "extract")

  unfoldable pub extract : Text → List Entry → Handler B (Unit {0})
  extract tmp [] = pure tt
  extract tmp (e ∷ entries) = do extract_entry tmp e; extract tmp entries

  -- `validateSQLite` of the database in the directory.
  unfoldable pub validate_sqlite : Text → Handler B (Unit {0})
  validate_sqlite tmp = do
    content ← try_read (join_path tmp database_name) (error 400 "database validation failed")
    try_call (error 400 "database validation failed")
    require (take 16 content == magic) (error 400 "database validation failed")

  -- `copyFile`
  unfoldable pub copy_file : Text → Text → Response B → Handler B (Unit {0})
  copy_file src dst r = do
    content ← try_read src r
    try_call r
    put_file dst content r r
    try_call r

  -- The callback that `copyDir` gives to Walk, on each path.
  unfoldable pub copy_files : Text → Text → Response B → List Text → Handler B (Unit {0})
  copy_files src dst r [] = pure tt
  copy_files src dst r (path ∷ paths) = do
    try_call r
    copy_file path (join_path dst (rel_path src path)) r
    copy_files src dst r paths

  unfoldable pub copy_dir : Text → Text → Response B → Handler B (Unit {0})
  copy_dir src dst r w = copy_files src dst r (walk src w.disk) w

  abbrev pub copied_storage : Bool → Text → Text → Handler B (Unit {0})
  copied_storage true tmp root =
      copy_dir (join_path tmp storage_name) root (error 400 "restore storage")
  copied_storage false tmp root = pure tt

  -- The storage is left out when `os.Stat` of its directory fails.
  unfoldable pub copy_storage : Text → Text → Handler B (Unit {0})
  copy_storage tmp root = do found ← attempt; copied_storage found tmp root
