-- ===== src/Backup/Roundtrip.antt =====
-- A backup that is made and then restored.
use my_personal_cloud.Prelude.{
  ℕ, ◌≡◌, refl, ap, ◌∙◌, ◌==◌, ◌⊎◌, inl, inr, Bool, true, ◌||◌, not, List, [], ◌∷◌, Option, some,
  Text, All, Bool-cases, Option-cases, length, ltb, take, map, byte_length,
}
use my_personal_cloud.World.{
  Database, Disk, World, Response, error, json, stream, Outcome, stop, next, or_reply, require,
  reply, pure,
}
use my_personal_cloud.World as World
use my_personal_cloud.Storage.{read_file, attempt}
use my_personal_cloud.Storage.Containment.{IsProperRoot}
use my_personal_cloud.Auth.{User}
use my_personal_cloud.Files.Changes.Contents.{calm}
use my_personal_cloud.Backup.{Bytes, Crypto, create_backup, nonce_size, salt_size}
use my_personal_cloud.Backup.Format.{OpensSealed, backup_opens}
use my_personal_cloud.Backup.Archive.{
  Entry, Packages, database_name, below, walk, has_database, add_storage, try_call,
}
use my_personal_cloud.Backup.Copying.{magic}
use my_personal_cloud.Backup.Site.{Site, ◌>>=◌, on_world, change, database_file_of}
use my_personal_cloud.Backup.Service.{
  BackupBody, restored, uploaded, given_of, passkey_of, checkpoint, build_zip, create_handler,
  restore_handler,
}
use my_personal_cloud.Backup.Calls.{IsArchive}
use my_personal_cloud.Backup.Runs.{entry_of, add_files-calm, outputs}
use my_personal_cloud.Backup.Restored.{site, restored_calm}
use my_personal_cloud.Backup.Journey.{
  IsCleaned, IsFresh, IsApart, AtRoot, stored_files, stored_readable,
}
use my_personal_cloud.Backup.Copies.{extracted_database, copied_files, found-Copied, brought_back}

-- archive/zip reads what it has written.
abbrev pub ZipsBack : Packages → Type 0
ZipsBack out = (entries : List Entry) → out.unzip (out.zip entries) ≡ some entries

-- The file of SQLite after a checkpoint begins with its header, and is opened to the same tables.
abbrev pub OpensCheckpointed : Packages → Database → Type 0
OpensCheckpointed out db =
    ((take 16 (out.checkpointed db) == magic) ≡ true)
    × (out.open_database (out.checkpointed db) ≡ some db)

-- Closing the connection moves the transactions in the log into the file: none if the log is empty.
abbrev pub ClosesCleanly : Packages → Type 0
ClosesCleanly out = (file : Bytes) → out.closed [] file ≡ file

given_passkey :
    (body : Option Text) (given : Text)
    → (passkey_of body ≡ []) ⊎ (given ≡ passkey_of body)
    → (passkey_of body ≡ []) ⊎ (given_of given ≡ some (passkey_of body))
given_passkey body given (inl e) = inl e
given_passkey body given (inr e) = rw (← e) (given_nonempty given)
  where
    given_nonempty : (given : Text) → (given ≡ []) ⊎ (given_of given ≡ some given)
    given_nonempty [] = inl refl
    given_nonempty (x ∷ s) = inr refl

module _ (c : Crypto) (jwt_secret : Bytes) (out : Packages) (root : Text) where
  -- The archive that is made where no call fails.
  archive_of : Database → List (Text × Bytes) → List Entry
  archive_of db files =
      record { name = database_name; content = out.checkpointed db } ∷ map (entry_of root) files

  build_zip-calm :
      (db : Database) (disk : Disk) (uuids now : ℕ) (file log : Bytes)
      (services channel told : Bool) (files : List (Text × Bytes)) (r : Response BackupBody)
      → map (λ f. f.0) files ≡ walk root disk
      → All (λ f. read_file f.0 disk ≡ some f.1) files
      → build_zip out root r (site (calm db disk uuids now) file log true services channel told) ≡ (
        next (archive_of db files),
        site (calm db disk uuids now) (out.checkpointed db) [] true services channel told,
      )
  unfolding build_zip checkpoint add_storage on_world change database_file_of try_call attempt
      require pure archive_of ◌>>=◌ World.◌>>=◌
  build_zip-calm db disk uuids now file log services channel told files r w h =
      rw (← w, add_files-calm db uuids now root r files disk h) refl

  -- A file that CreateHandler has sent was made from this archive.
  created_from :
      (user : User) (body : Option Text) (salt random : Option Bytes) (db : Database) (disk : Disk)
      (uuids now : ℕ) (file log sent : Bytes) (services channel told : Bool)
      (files : List (Text × Bytes)) (mime : Text) (size : ℕ) (disposition : Option Text) (s' : Site)
      → map (λ f. f.0) files ≡ walk root disk
      → All (λ f. read_file f.0 disk ≡ some f.1) files
      → create_handler c jwt_secret out root
          (some user)
          body
          salt
          random
          (site (calm db disk uuids now) file log true services channel told)
        ≡ (stop (stream mime size disposition sent), s')
      → create_backup c jwt_secret (passkey_of body) salt random (out.zip (archive_of db files))
        ≡ some sent
  unfolding create_handler on_world or_reply require reply ◌>>=◌
  created_from user body salt random db disk uuids now file log sent services channel told files
        mime size disposition s' w h e =
      let passkey = passkey_of body in
      let zipped =
        build_zip-calm db disk uuids now file log services channel told files
          (error 500 "backup failed") w h in
      elim (Bool-cases (passkey == [] || not (ltb (byte_length passkey) 4))) [
        | inr f ↦ absurd (cc (rw f at e))
        | inl f ↦
            elim (Option-cases
              (create_backup c jwt_secret passkey salt random (out.zip (archive_of db files)))) [
                | inl g ↦ absurd (cc (rw (f, zipped, g) at e))
                | inr (made, g) ↦
                    let same : made ≡ sent = cc (rw (f, zipped, g) at e) in rw (← same) g
              ]
      ]

  -- The answer of a restore, the tables, and the files below the root that another disk has.
  abbrev pub BroughtBack : Database → Disk → Outcome BackupBody (Unit {0}) × Site → Type 0
  BroughtBack db disk x =
      (x.0 ≡ stop (json 200 restored))
      × (x.1.world.db ≡ db)
      × ((path : Text) (bytes : Bytes)
          → below root path ≡ true
          → read_file path disk ≡ some bytes
          → read_file path x.1.world.disk ≡ some bytes)

  module _ (tmp : Text) (proper_root : IsProperRoot root) (proper_tmp : IsProperRoot tmp)
      (apart : IsApart root tmp) (opens : OpensSealed c) (zips : ZipsBack out) where
    restored_archive :
        (user : User) (given : Text) (sent : Bytes) (db_a db : Database) (disk_a disk : Disk)
        (uuids now : ℕ) (file : Bytes) (holder services channel told : Bool)
        (files : List (Text × Bytes))
        → OpensCheckpointed out db_a
        → ClosesCleanly out
        → IsCleaned disk_a
        → IsFresh tmp disk
        → map (λ f. f.0) files ≡ walk root disk_a
        → All (λ f. AtRoot root disk_a f.0 f.1) files
        → IsArchive c jwt_secret out (given_of given) sent (archive_of db_a files)
        → BroughtBack db_a disk_a (
            restore_handler c jwt_secret out root
              (some user)
              tmp
              (uploaded sent given)
              (site (calm db disk uuids now) file [] holder services channel told))
    unfolding archive_of outputs ◌==◌
    restored_archive user given sent db_a db disk_a disk uuids now file holder services channel told
          files sqlite closes cleaned fresh w at_root archive =
        let database : Bytes = out.checkpointed db_a in
        let (found, all_found, at_tmp) =
          copied_files root tmp proper_root proper_tmp apart disk_a disk cleaned database fresh
            files w at_root in
        let held =
          extracted_database root tmp proper_root proper_tmp apart disk_a disk cleaned database
            fresh files w at_root in
        let reopened : out.open_database (out.closed [] database) ≡ some db_a =
          ap out.open_database (closes database) ∙ sqlite.1 in
        let run =
          restored_calm c jwt_secret out root tmp db uuids now file [] holder services channel told
            disk (archive_of db_a files) database db_a found held sqlite.0 reopened all_found
            (found-Copied root tmp proper_root proper_tmp apart disk_a disk cleaned database fresh
              files w at_root found at_tmp)
            user sent given archive in
        (
          ap (λ x. x.0) run,
          ap (λ x. x.1.world.db) run,
          λ path bytes h r.
              ap (λ x. read_file path x.1.world.disk) run
              ∙ brought_back root tmp proper_root proper_tmp apart disk_a disk cleaned database
                  fresh files w at_root found all_found at_tmp path bytes h r,
        )

    -- Two sites on which no call fails, with the same JWT secret and the same storage root, a
    -- temporary directory apart from it with nothing in it, and cleaned paths on the first disk. The
    -- write-ahead log of the second site is empty when the restore starts, and SQLite leaves the file
    -- as it is when it closes a connection with an empty log. AES-GCM, archive/zip and SQLite read
    -- back what they have written, and crypto/rand gives a salt of 32 bytes and a nonce of 12. If CreateHandler sends a file
    -- on the first site, and RestoreHandler receives it on the second with the same passkey, or with
    -- any when none was used: it answers 200, the tables are those of the first site, and every file
    -- below the root of the first site stands at its path with its content.
    pub backup-BroughtBack :
        (user user' : User) (body : Option Text) (given : Text) (salt random sent : Bytes)
        (db_a db : Database) (disk_a disk : Disk) (uuids_a now_a uuids now : ℕ)
        (file_a log_a file : Bytes)
        (services_a channel_a told_a holder services channel told : Bool) (mime : Text) (size : ℕ)
        (disposition : Option Text) (s : Site)
        → OpensCheckpointed out db_a
        → ClosesCleanly out
        → IsCleaned disk_a
        → IsFresh tmp disk
        → length salt ≡ salt_size
        → length random ≡ nonce_size
        → (passkey_of body ≡ []) ⊎ (given ≡ passkey_of body)
        → create_handler c jwt_secret out root
            (some user)
            body
            (some salt)
            (some random)
            (site (calm db_a disk_a uuids_a now_a) file_a log_a true services_a channel_a told_a)
          ≡ (stop (stream mime size disposition sent), s)
        → BroughtBack db_a disk_a (
            restore_handler c jwt_secret out root
              (some user')
              tmp
              (uploaded sent given)
              (site (calm db disk uuids now) file [] holder services channel told))
    unfolding archive_of has_database ◌==◌
    backup-BroughtBack user user' body given salt random sent db_a db disk_a disk uuids_a now_a
          uuids now file_a log_a file services_a channel_a told_a holder services channel told mime
          size disposition s sqlite closes cleaned fresh ls ln same e =
        let (files, w, at_root) =
          stored_files root tmp proper_root proper_tmp apart disk_a cleaned in
        let made =
          created_from user body (some salt) (some random) db_a disk_a uuids_a now_a file_a log_a
            sent services_a channel_a told_a files mime size disposition s w
            (stored_readable root tmp proper_root proper_tmp apart disk_a files at_root) e in
        let opened =
          backup_opens c jwt_secret (passkey_of body) (given_of given) salt random
            (out.zip (archive_of db_a files)) sent opens ls ln (given_passkey body given same)
            made in
        restored_archive user' given sent db_a db disk_a disk uuids now file holder services channel
          told files sqlite closes cleaned fresh w at_root
          (out.zip (archive_of db_a files), opened, zips (archive_of db_a files), refl)
