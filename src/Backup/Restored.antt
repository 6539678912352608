-- ===== src/Backup/Restored.antt =====
-- A restore where no call fails.
use my_personal_cloud.Prelude.{
  ℕ, ◌≡◌, refl, ◌==◌, Bool, true, false, ◌||◌, List, [], Option, some, Text, All, take, map,
}
use my_personal_cloud.GoPath.{join_path}
use my_personal_cloud.World.{
  Database, Disk, World, Response, error, json, Outcome, stop, next, pure, require, or_reply, reply,
}
use my_personal_cloud.World as World
use my_personal_cloud.Storage.{read_file, attempt}
use my_personal_cloud.Auth.{User}
use my_personal_cloud.Files.Changes.Contents.{calm}
use my_personal_cloud.Backup.{Bytes, Crypto}
use my_personal_cloud.Backup.Archive.{
  Entry, Packages, database_name, storage_name, walk, read_archive, try_call,
}
use my_personal_cloud.Backup.Copying.{magic, copy_dir, copy_storage}
use my_personal_cloud.Backup.Site.{Site, ◌>>=◌, on_world, change, database_file_of, replace}
use my_personal_cloud.Backup.Service.{
  BackupBody, restored, uploaded, given_of, remove_all, with_temp, copy_database, write_over,
  restore_archive, restore_backup, restore_handler,
}
use my_personal_cloud.Backup.Calls.{IsArchive}
use my_personal_cloud.Backup.Writes.{puts}
use my_personal_cloud.Backup.Runs.{
  outputs, copy_of, extract-calm, try_read-calm, validate_sqlite-calm, Copied, copy_files-calm,
}

abbrev pub site : World → Bytes → Bytes → Bool → Bool → Bool → Bool → Site
site w file log holder services channel told = record {
  world = w;
  database_file = file;
  log = log;
  holder_open = holder;
  services_open = services;
  restart_ch = channel;
  restarting = told;
}

module _ (c : Crypto) (jwt_secret : Bytes) (out : Packages) (root tmp : Text) (db : Database)
    (uuids now : ℕ) (before_file log : Bytes) (holder services channel told : Bool) where
  abbrev src : Text
  src = join_path tmp storage_name

  abbrev at : Database → Disk → Bytes → Bytes → Bool → Bool → Bool → Site
  at db' disk file log' holder' services' told' =
      site (calm db' disk uuids now) file log' holder' services' channel told'

  read_archive-calm :
      (given : Option Text) (file : Bytes) (entries : List Entry) (disk : Disk)
      → IsArchive c jwt_secret out given file entries
      → read_archive {B = BackupBody} c jwt_secret out given file (calm db disk uuids now)
        ≡ (next entries, calm db disk uuids now)
  unfolding read_archive or_reply require pure World.◌>>=◌
  read_archive-calm given file entries disk (plaintext, opened, unzipped, essential) =
      rw (opened, unzipped, essential) refl

  copy_storage-calm :
      (db' : Database) (files : List (Text × Bytes)) (disk : Disk)
      → map (λ f. f.0) files ≡ walk src disk
      → All (Copied src root disk) files
      → copy_storage {B = BackupBody} tmp root (calm db' disk uuids now)
        ≡ (next tt, calm db' (puts (map (copy_of src root) files) disk) uuids now)
  unfolding copy_storage copy_dir attempt World.◌>>=◌
  copy_storage-calm db' files disk w h =
      rw (← w) (copy_files-calm db' uuids now src root (error 400 "restore storage") files disk h)

  module _ (disk : Disk) (entries : List Entry) (content : Bytes) (db' : Database)
      (files : List (Text × Bytes))
      (held : read_file (join_path tmp database_name) (puts (outputs tmp entries) disk)
        ≡ some content)
      (sqlite : (take 16 content == magic) ≡ true)
      (opens : out.open_database (out.closed log content) ≡ some db')
      (walked : map (λ f. f.0) files ≡ walk src (puts (outputs tmp entries) disk))
      (copied : All (Copied src root (puts (outputs tmp entries) disk)) files) where
    abbrev extracted : Disk
    extracted = puts (outputs tmp entries) disk

    -- The tables that the connection reads before it is closed.
    abbrev over : Database
    over = out.read_over (out.read_over db log []) log content

    copy_database-calm :
        copy_database out tmp (at db extracted before_file log holder services told)
        ≡ (next tt, at over extracted content log holder services told)
    unfolding copy_database write_over on_world change try_call attempt require ◌>>=◌ World.◌>>=◌
    copy_database-calm =
        rw
          (try_read-calm db uuids now (join_path tmp database_name)
            (error 400 "replace database file") extracted held)
          refl

    replace-calm :
        replace {B = BackupBody} out (at over extracted content log holder services told)
        ≡ (next tt, at db' extracted (out.closed log content) [] true false told)
    unfolding replace on_world change database_file_of try_call attempt require or_reply ◌>>=◌
        World.◌>>=◌
    replace-calm = rw opens refl

    restore_archive-calm :
        restore_archive out root tmp entries (at db disk before_file log holder services told) ≡ (
          next tt,
          at db'
              (puts (map (copy_of src root) files) extracted)
              (out.closed log content)
              []
              true
              false
              told,
        )
    unfolding restore_archive on_world ◌>>=◌
    restore_archive-calm =
        rw
          (
            extract-calm {B = BackupBody} db uuids now tmp entries disk,
            validate_sqlite-calm {B = BackupBody} db uuids now tmp extracted held sqlite,
            copy_database-calm,
            replace-calm,
            copy_storage-calm db' files extracted walked copied,
          )
          refl

    -- The answer, and the site after it.
    pub restored_calm :
        (user : User) (file : Bytes) (passkey : Text)
        → IsArchive c jwt_secret out (given_of passkey) file entries
        → restore_handler c jwt_secret out root
            (some user)
            tmp
            (uploaded file passkey)
            (at db disk before_file log holder services told)
          ≡ (
            stop (json 200 restored),
            at db'
                (remove_all tmp (puts (map (copy_of src root) files) extracted))
                (out.closed log content)
                []
                true
                false
                (told || channel),
          )
    unfolding restore_handler restore_backup with_temp on_world change or_reply reply try_call
        attempt require ◌>>=◌ World.◌>>=◌
    restored_calm user file passkey archive =
        rw (read_archive-calm (given_of passkey) file entries disk archive, restore_archive-calm)
          refl
