-- ===== src/Backup/Service.antt =====
-- Making and restoring backups: `CreateBackup`, `RestoreBackup`, CreateHandler and RestoreHandler of
-- internal/backup/backup.go. Of the text of an error, only the part that the code puts before the
-- error of a call is kept, and no version or key type in it. The limits on the size of a request
-- and the errors of reading it are left out.
use my_personal_cloud.Prelude.{
  ◌==◌, not, ◌||◌, List, [], ◌∷◌, Option, none, some, Text, codes, if◌then◌else◌, ltb, length,
  filter, byte_length,
}
use my_personal_cloud.GoPath.{join_path}
use my_personal_cloud.World.{
  Disk, World, Response, error, json, stream, Outcome, or_reply, reply, pure, require, next_fault,
  used,
}
use my_personal_cloud.Auth.{User}
use my_personal_cloud.Backup.{Bytes, Crypto, create_backup}
use my_personal_cloud.Backup.Archive.{
  Entry, Packages, database_name, below, try_call, try_read, add_storage, read_archive,
}
use my_personal_cloud.Backup.Copying.{extract, validate_sqlite, copy_storage}
use my_personal_cloud.Backup.Site.{
  Site, Step, ◌>>=◌, ◌>>◌, on_world, change, database_file_of, replace,
}

-- The answer of RestoreHandler.
pub data BackupBody : Type 0 where
  restored : BackupBody

-- The form that RestoreHandler receives: none that can be parsed, one without the field "file", or
-- the file and the value of "passkey", "" where absent.
pub data BackupForm : Type 0 where
  invalid_upload : BackupForm
  no_file : BackupForm
  uploaded : Bytes → Text → BackupForm

-- `PRAGMA wal_checkpoint(TRUNCATE)`, whose error is only logged: what the connection has written
-- is moved into the file, and the log is truncated.
unfoldable pub checkpoint : Packages → Site → Site
checkpoint out s = record s {
  world = used s.world;
  database_file =
      if next_fault s.world.faults || not s.holder_open
      then s.database_file
      else out.checkpointed s.world.db;
  log = if next_fault s.world.faults || not s.holder_open then s.log else [];
}

-- `buildZip`; every error of it is answered with `r`.
unfoldable pub build_zip : Packages → Text → Response BackupBody → Step BackupBody (List Entry)
build_zip out root r = do
  change (checkpoint out)
  on_world (try_call r)
  file ← database_file_of
  on_world (try_call r)
  entries ← on_world (add_storage r root)
  on_world (pure (record { name = database_name; content = file } ∷ entries))

-- The deferred `os.RemoveAll`, whose error nobody looks at.
unfoldable pub remove_all : Text → Disk → Disk
remove_all dir disk = filter (λ file. not (file.0 == dir || below dir file.0)) disk

abbrev pub cleaned : Text → World → World
cleaned tmp w = record (used w) {
  disk = if next_fault w.faults then w.disk else remove_all tmp w.disk;
}

abbrev pub cleared : {A : Type 0} → Text → Outcome BackupBody A × Site → Outcome BackupBody A × Site
cleared tmp (o, s) = (o, record s { world = cleaned tmp s.world })

unfoldable pub with_temp : {A : Type 0} → Text → Step BackupBody A → Step BackupBody A
with_temp tmp m s = cleared tmp (m s)

-- The file of the database is written over while the connection to it is open, which from then on
-- reads what it makes of the new file and the log.
unfoldable pub write_over : Packages → Bytes → Site → Site
write_over out content s = record s {
  world = record (s.world) { db = out.read_over s.world.db s.log content };
  database_file = content;
}

-- `copyFile` onto the file of the database, which `os.Create` truncates.
unfoldable pub copy_database : Packages → Text → Step BackupBody (Unit {0})
copy_database out tmp =
    let failed : Response BackupBody = error 400 "replace database file" in
    do
      content ← on_world (try_read (join_path tmp database_name) failed)
      on_world (try_call failed)
      on_world (try_call failed)
      change (write_over out [])
      on_world (try_call failed)
      change (write_over out content)
      on_world (try_call failed)

-- What the deferred removal stands around.
unfoldable pub restore_archive : Packages → Text → Text → List Entry → Step BackupBody (Unit {0})
restore_archive out root tmp entries = do
  on_world (extract tmp entries)
  on_world (validate_sqlite tmp)
  copy_database out tmp
  replace out
  on_world (copy_storage tmp root)

-- A passkey that is empty counts as none.
abbrev pub given_of : Text → Option Text
given_of [] = none
given_of (x ∷ s) = some (x ∷ s)

-- A body that is not JSON counts as one without a passkey.
abbrev pub passkey_of : Option Text → Text
passkey_of none = []
passkey_of (some passkey) = passkey

-- The goroutine that tells main to restart.
abbrev pub signalled : Site → Site
signalled s = record s { restarting = s.restarting || s.restart_ch }

module _ (c : Crypto) (jwt_secret : Bytes) (out : Packages) (root : Text) where
  -- `RestoreBackup`; `tmp` is the name that `os.MkdirTemp` makes.
  unfoldable pub restore_backup : Text → Option Text → Bytes → Step BackupBody (Unit {0})
  restore_backup tmp given file = do
    entries ← on_world (read_archive c jwt_secret out given file)
    on_world (try_call (error 400 "create temp dir"))
    with_temp tmp (restore_archive out root tmp entries)

  abbrev pub restored_from : Text → BackupForm → Step BackupBody (Unit {0})
  restored_from tmp invalid_upload = on_world (reply (error 400 "invalid upload"))
  restored_from tmp no_file = on_world (reply (error 400 "file field required"))
  restored_from tmp (uploaded file passkey) = do
    restore_backup tmp (given_of passkey) file
    change signalled
    on_world (reply (json 200 restored))

  unfoldable pub restore_handler : Option User → Text → BackupForm → Step BackupBody (Unit {0})
  restore_handler user tmp form = do
    on_world (or_reply user (error 401 "unauthorized"))
    restored_from tmp form

  -- `salt` and `random` are what crypto/rand gives.
  unfoldable pub create_handler :
      Option User → Option Text → Option Bytes → Option Bytes → Step BackupBody (Unit {0})
  create_handler user body salt random = do
    on_world (or_reply user (error 401 "unauthorized"))
    on_world (
        require (passkey_of body == [] || not (ltb (byte_length (passkey_of body)) 4))
          (error 400 "passkey must be at least 4 characters"))
    entries ← build_zip out root (error 500 "backup failed")
    file ← on_world (
        or_reply (create_backup c jwt_secret (passkey_of body) salt random (out.zip entries))
          (error 500 "backup failed"))
    on_world (
        reply (
          stream (codes "application/octet-stream") (length file)
            (some (codes "attachment; filename=my-cloud-backup.mpcbackup")) file))
