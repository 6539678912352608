-- ===== src/Backup/Restoring.antt =====
-- What RestoreHandler may leave behind, whichever calls fail.
use my_personal_cloud.Prelude.{
  ◌≡◌, ◌≢◌, refl, sym, ◌∙◌, ap, ◌==◌, eq_false, true, false, not, ◌||◌, List, [], ◌∷◌, Option, Text,
  All,
}
use my_personal_cloud.GoPath.{join_path}
use my_personal_cloud.World.{Disk}
use my_personal_cloud.Storage.{read_file}
use my_personal_cloud.Storage.Reading.{read-write_other, read-filter}
use my_personal_cloud.Auth.{User}
use my_personal_cloud.Backup.{Bytes, Crypto}
use my_personal_cloud.Backup.Archive.{Entry, Packages, below}
use my_personal_cloud.Backup.Site.{Site}
use my_personal_cloud.Backup.Service.{
  BackupForm, invalid_upload, no_file, uploaded, given_of, remove_all, restore_handler,
}
use my_personal_cloud.Backup.Calls.{IsArchive, Writable}
use my_personal_cloud.Backup.Settled.{Settled, Harmless, restore_handler-Settled}

abbrev pub AnyDisk : Disk → Type 0
AnyDisk disk = Unit

-- The files outside a directory are those of the other disk.
abbrev pub SameOutside : Text → Disk → Disk → Type 0
SameOutside dir before disk =
    (path : Text)
    → path ≢ dir
    → below dir path ≡ false
    → read_file path disk ≡ read_file path before

-- Every entry is extracted below the directory.
abbrev pub ExtractsInside : Text → List Entry → Type 0
ExtractsInside dir = All (λ e. below dir (join_path dir e.name) ≡ true)

module _ (c : Crypto) (jwt_secret : Bytes) (out : Packages) (root tmp : Text) (user : Option User)
    (s : Site) where
  any_write :
      (entries : List Entry)
      → All (λ e. Writable (λ db disk. (db ≡ s.world.db) × Unit) (join_path tmp e.name)) entries
  any_write [] = tt
  any_write (e ∷ entries) = ((λ db disk bytes h. h), any_write entries)

  harmless : (form : BackupForm) → Harmless out s AnyDisk c jwt_secret root tmp (λ disk h. tt) form
  harmless invalid_upload = tt
  harmless no_file = tt
  harmless (uploaded file passkey) = λ entries h. any_write entries

  -- Whoever sends whatever file and passkey, and whichever calls fail, a restore ends in one of
  -- these ways. It is answered with 200: the tables are those that SQLite finds in the file of the
  -- database, on a new connection, the connection of the other services is closed, and the server
  -- is told to restart if it can be told. Or it is answered with an error, and the tables, the file
  -- of the database, its log, the connections and the signal are as before. Or it is answered with an
  -- error, and the file of the database has been truncated or written over under the open
  -- connection. Or it is answered with an error, the connection of the other services is closed, and
  -- the signal is as before.
  pub restore_settles :
      (form : BackupForm)
      → Settled out s AnyDisk (restore_handler c jwt_secret out root user tmp form s)
  restore_settles form =
      restore_handler-Settled out s AnyDisk c jwt_secret root tmp (λ disk h. tt) tt user form
        (harmless form)

  outside_write :
      (entries : List Entry)
      → ExtractsInside tmp entries
      → All
          (λ e.
            Writable
              (λ db disk. (db ≡ s.world.db) × SameOutside tmp s.world.disk disk)
              (join_path tmp e.name))
          entries
  outside_write [] h = tt
  outside_write (e ∷ entries) h = (
    (λ db disk bytes p. (
      p.0,
      λ path no outside.
          read-write_other path (join_path tmp e.name) bytes disk
            (λ q. cc (sym outside ∙ ap (below tmp) q ∙ h.0))
          ∙ p.1 path no outside,
    )),
    outside_write entries h.1,
  )

  -- If every archive that the uploaded file can be decrypted to names its entries so that they are
  -- extracted below the temporary directory: whichever calls fail, the restore is answered with 200
  -- and the tables are those of the file of the database; or it is answered with an error, and the
  -- tables, the file of the database, its log, the connections, the signal and every file of the disk
  -- outside the temporary directory are as before; or it is answered with an error, the file of the
  -- database has been truncated or written over under the open connection, and every other file
  -- outside the temporary directory is as before; or it is answered with an error, and the
  -- connection of the other services is closed.
  pub failed_restore_keeps_files :
      (file : Bytes) (passkey : Text)
      → ((entries : List Entry)
          → IsArchive c jwt_secret out (given_of passkey) file entries
          → ExtractsInside tmp entries)
      → Settled out s
          (SameOutside tmp s.world.disk)
          (restore_handler c jwt_secret out root user tmp (uploaded file passkey) s)
  unfolding remove_all
  failed_restore_keeps_files file passkey inside =
      restore_handler-Settled out s (SameOutside tmp s.world.disk) c jwt_secret root tmp
        (λ disk h path no outside.
          read-filter (λ file. not (file.0 == tmp || below tmp file.0)) path disk
            (λ bytes. rw (eq_false path tmp no, outside) refl)
          ∙ h path no outside)
        (λ path no outside. refl) user (uploaded file passkey)
        (λ entries archive. outside_write entries (inside entries archive))
