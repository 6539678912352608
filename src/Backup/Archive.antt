-- ===== src/Backup/Archive.antt =====
-- The archive inside a backup, `buildZip` of internal/backup/backup.go, and what RestoreBackup
-- reads of it. Directories are not part of the disk, so the archive has no entries for them.
use my_personal_cloud.Prelude.{
  ◌==◌, Bool, true, false, ◌&&◌, List, [], ◌∷◌, Option, Text, codes, if◌then◌else◌, ltb, map,
  filter, any,
}
use my_personal_cloud.GoPath.{elements, is_rooted, join_path}
use my_personal_cloud.Sql.{order_by}
use my_personal_cloud.World.{
  Database, Disk, Response, error, Handler, ◌>>=◌, ◌>>◌, pure, require, or_reply, reply,
}
use my_personal_cloud.Storage.{strip_common, same_kind, rel_path, attempt, read_disk}
use my_personal_cloud.Backup.{
  Bytes, Crypto, Unpacked, bad_magic, unsupported_version, passkey_required, unknown_key_type,
  cipher_failed, bad_key, unpacked, open_backup,
}

-- `zip.File`: a name and the content.
pub record Entry : Type 0 where
  pub name : Text
  pub content : Bytes

-- archive/zip, and SQLite: the file of the database after a checkpoint, the file that closing the
-- last connection makes of the log and a file (what is in the log is moved into the file then), what
-- an open connection that has read some tables reads of the log and a file that is written over
-- under it, and the tables that `sql.Open` and `Ping` find in a file.
pub record Packages : Type 0 where
  pub zip : List Entry → Bytes
  pub unzip : Bytes → Option (List Entry)
  pub checkpointed : Database → Bytes
  pub closed : Bytes → Bytes → Bytes
  pub read_over : Database → Bytes → Bytes → Database
  pub open_database : Bytes → Option Database

abbrev pub database_name : Text
database_name = codes "database.sqlite"

abbrev pub storage_name : Text
storage_name = codes "storage"

abbrev pub ends_inside : List Text × List Text → Bool
ends_inside ([], w ∷ ws) = true
ends_inside ([], []) = false
ends_inside (b ∷ bs, ws) = false

-- Whether `filepath.Walk` of the directory comes to the path.
unfoldable pub below : Text → Text → Bool
below dir path =
    same_kind (is_rooted dir) (is_rooted path)
    && ends_inside (strip_common (elements dir) (elements path))

unfoldable pub before : {A : Type 0} → (A → A → Bool) → List A → List A → Bool
before less [] [] = false
before less [] (y ∷ ys) = true
before less (x ∷ xs) [] = false
before less (x ∷ xs) (y ∷ ys) =
    let rest = before less xs ys in if less x y then true else if less y x then false else rest

-- The regular files that `filepath.Walk` comes to, in its order: that of the names in each
-- directory.
unfoldable pub walk : Text → Disk → List Text
walk dir disk =
    order_by (λ p q. before (before ltb) (elements p) (elements q))
      (filter (below dir) (map (λ file. file.0) disk))

unfoldable pub has_database : List Entry → Bool
has_database entries = any (λ e. e.name == database_name) entries

module _ {B : Type 0} where
  -- A call of the file system whose error is answered with `r`.
  unfoldable pub try_call : Response B → Handler B (Unit {0})
  try_call r = attempt >>= λ done. require done r

  -- `os.Open` of a file that is read to its end.
  unfoldable pub try_read : Text → Response B → Handler B Bytes
  try_read path r = do try_call r; content ← read_disk path; or_reply content r

  -- The callback that `buildZip` gives to Walk, on each path: the calls are those of Walk, `Open`,
  -- `Copy` and `Close`.
  unfoldable pub add_files : Response B → Text → List Text → Handler B (List Entry)
  add_files r root [] = pure []
  add_files r root (path ∷ paths) = do
    try_call r
    content ← try_read path r
    try_call r
    try_call r
    entries ← add_files r root paths
    pure
        (record { name = join_path storage_name (rel_path root path); content = content } ∷ entries)

  unfoldable pub add_storage : Response B → Text → Handler B (List Entry)
  add_storage r root w = add_files r root (walk root w.disk) w

  -- What RestoreBackup answers to a file that it cannot decrypt.
  abbrev pub plaintext_of : Unpacked → Handler B Bytes
  plaintext_of bad_magic = reply (error 400 "invalid backup file")
  plaintext_of (unsupported_version n) = reply (error 400 "unsupported backup version")
  plaintext_of passkey_required =
      reply (error 400 "backup requires a passkey — provide one to restore")
  plaintext_of (unknown_key_type n) = reply (error 400 "unknown key type")
  plaintext_of cipher_failed = reply (error 400 "create cipher")
  plaintext_of bad_key = reply (error 401 "wrong passkey or corrupted backup")
  plaintext_of (unpacked plaintext) = pure plaintext

  -- `RestoreBackup` before the archive is written anywhere.
  unfoldable pub read_archive :
      Crypto → Bytes → Packages → Option Text → Bytes → Handler B (List Entry)
  read_archive c jwt_secret out given file = do
    plaintext ← plaintext_of (open_backup c jwt_secret given file)
    entries ← or_reply (out.unzip plaintext) (error 400 "invalid backup archive")
    require (has_database entries) (error 400 "backup is missing database.sqlite")
    pure entries
