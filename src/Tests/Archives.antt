-- ===== src/Tests/Archives.antt =====
-- Runs of making and restoring whole backups. The archive is written as a list of fields, each after
-- its length, and the file of the database is the header of SQLite for one database.
use my_personal_cloud.Prelude.{
  String, ◌⊎◌, ℕ, zero, suc, ◌≡◌, refl, sym, ap, ◌∙◌, ◌++◌, ◌==◌, inl, inr, true, false, List, [],
  ◌∷◌, Option, none, some, Text, codes, length, take, drop, take-append, drop-append, Bool-cases,
  arith, byte_length, has_prefix,
}
use my_personal_cloud.GoPath.{
  split, step, step_up, resolve, elements, clean, join_path, is_rooted, join, render,
}
use my_personal_cloud.World as World
use my_personal_cloud.World.{
  Database, Disk, World, Response, json, error, stream, Outcome, stop, used, require, or_reply,
  reply, pure,
}
use my_personal_cloud.Sql.{order_by, insert_ordered}
use my_personal_cloud.Storage.{
  read_file, write_file, remove_file, strip_common, rel_path, attempt, change_disk, read_disk,
}
use my_personal_cloud.Storage.Containment.{IsProperRoot}
use my_personal_cloud.Auth.{User}
use my_personal_cloud.Files.Changes.Contents.{calm}
use my_personal_cloud.Backup.{Bytes, create_backup, open_backup, open_sealed, unpacked}
use my_personal_cloud.Backup.Calls.{IsArchive}
use my_personal_cloud.Backup.Archive.{
  Entry, Packages, below, walk, has_database, try_call, try_read, add_files, add_storage,
  read_archive,
}
use my_personal_cloud.Backup.Copying.{
  magic, extract, extract_entry, put_file, validate_sqlite, copy_file, copy_files, copy_dir,
  copy_storage,
}
use my_personal_cloud.Backup.Below.{below_sound}
use my_personal_cloud.Backup.Service.{
  BackupBody, uploaded, create_handler, restore_handler, build_zip, checkpoint, restore_backup,
  with_temp, restore_archive, copy_database, write_over, remove_all,
}
use my_personal_cloud.Backup.Site as Site
use my_personal_cloud.Backup.Site.{Site, on_world, change, database_file_of, replace}
use my_personal_cloud.Backup.Restored.{site}
use my_personal_cloud.Backup.Restoring.{
  AnyDisk, SameOutside, ExtractsInside, failed_restore_keeps_files,
}
use my_personal_cloud.Backup.Settled.{Settled}
use my_personal_cloud.Backup.Journey.{IsApart}
use my_personal_cloud.Backup.Roundtrip.{
  ZipsBack, OpensCheckpointed, BroughtBack, backup-BroughtBack,
}
use my_personal_cloud.Auth.Tokens.{TokenUser, parse_token}
use my_personal_cloud.Server.Guard.{sent as bearer_text}
use my_personal_cloud.Server.Backups.{route_restore, route_restore-Settled}
use my_personal_cloud.Tests.Tokens.{library}
use my_personal_cloud.Tests.Sessions.{service, token, after_ensure}
use my_personal_cloud.Tests.Routes.{with_token}
use my_personal_cloud.Tests.Backups.{crypto, salt, drawn_nonce, zeros, strip, crypto-OpensSealed}

unfoldable pub write_entries : List Entry → Bytes
write_entries [] = []
write_entries (e ∷ entries) =
    length e.name ∷ (e.name ++ length e.content ∷ (e.content ++ write_entries entries))

abbrev pub before_others : Entry → Option (List Entry) → Option (List Entry)
before_others e none = none
before_others e (some entries) = some (e ∷ entries)

abbrev pub second_field : (Bytes → Option (List Entry)) → Text → Bytes → Option (List Entry)
second_field rest name [] = none
second_field rest name (n ∷ bytes) =
    before_others (record { name = name; content = take n bytes }) (rest (drop n bytes))

unfoldable pub read_entries : ℕ → Bytes → Option (List Entry)
read_entries zero bytes = some []
read_entries (suc k) [] = none
read_entries (suc k) (n ∷ bytes) = second_field (read_entries k) (take n bytes) (drop n bytes)

abbrev pub unzip_counted : Bytes → Option (List Entry)
unzip_counted [] = none
unzip_counted (k ∷ bytes) = read_entries k bytes

read-write_entries :
    (entries : List Entry) → read_entries (length entries) (write_entries entries) ≡ some entries
unfolding read_entries write_entries
read-write_entries [] = refl
read-write_entries (e ∷ entries) =
    let rest : Bytes = e.content ++ write_entries entries in
    rw
      (
        take-append e.name (length e.content ∷ rest),
        drop-append e.name (length e.content ∷ rest),
        take-append e.content (write_entries entries),
        drop-append e.content (write_entries entries),
        read-write_entries entries,
      )
      refl

abbrev tables : Database
tables = record {
  users = record { id = 1; username = codes "ann"; password_hash = codes "h" } ∷ [];
  files = [];
  folders = [];
  share_links = [];
}

abbrev no_tables : Database
no_tables = record { users = []; files = []; folders = []; share_links = [] }

abbrev packages : Packages
packages = record {
  zip = λ entries. length entries ∷ write_entries entries;
  unzip = unzip_counted;
  checkpointed = λ db. magic;
  closed = λ log file. log ++ file;
  read_over = λ db log file. no_tables;
  open_database = λ file. some tables;
}

abbrev root : Text
root = codes "/d"

abbrev tmp : Text
tmp = codes "/t"

abbrev photo : Text
photo = codes "/d/1/x"

abbrev disk_before : Disk
disk_before = (photo, 7 ∷ 8 ∷ []) ∷ []

abbrev ann : User
ann = record { id = 1; username = codes "ann" }

root-IsProperRoot : IsProperRoot root
unfolding elements split resolve step ◌==◌
root-IsProperRoot = ([], codes "d", refl, (cc, cc, cc, omega arith))

tmp-IsProperRoot : IsProperRoot tmp
unfolding elements split resolve step ◌==◌
tmp-IsProperRoot = ([], codes "t", refl, (cc, cc, cc, omega arith))

tmp-elements : elements tmp ≡ codes "t" ∷ []
unfolding elements split resolve step ◌==◌
tmp-elements = refl

root-elements : elements root ≡ codes "d" ∷ []
unfolding elements split resolve step ◌==◌
root-elements = refl

outside_root : (p : Text) (ws : List Text) → elements p ≡ codes "t" ∷ ws → below root p ≡ false
unfolding below strip_common ◌==◌
outside_root p ws e = elim (Bool-cases (is_rooted p)) [
  | inl r ↦ rw (r, root-elements, e) refl
  | inr r ↦ rw r refl
]

apart : IsApart root tmp
apart = (
  outside_root tmp [] tmp-elements,
  λ p h.
      let (w, ws, (r, e)) = below_sound tmp p h in
      outside_root p (w ∷ ws) (e ∙ ap (λ xs. xs ++ w ∷ ws) tmp-elements),
)

packages-ZipsBack : ZipsBack packages
packages-ZipsBack entries = read-write_entries entries

packages-OpensCheckpointed : OpensCheckpointed packages tables
unfolding ◌==◌
packages-OpensCheckpointed = (refl, refl)

abbrev site_a : Site
site_a = site (calm tables disk_before 0 100) [] [] true true true false

abbrev site_b : Site
site_b = site (calm no_tables [] 0 200) [] [] true true true false

abbrev packed : List Entry
packed =
    record { name = codes "database.sqlite"; content = magic }
    ∷ record { name = codes "storage/1/x"; content = 7 ∷ 8 ∷ [] }
    ∷ []

abbrev sent : Bytes
sent =
    1
    ∷ 1
    ∷ (salt
        ++ (drawn_nonce
            ++ ((codes "abcd" ++ zeros 28)
                ++ (drawn_nonce ++ (length packed ∷ write_entries packed)))))

-- The backup is sent, and the file of the database is that of the checkpoint.
create_run :
    create_handler crypto [] packages root
      (some ann)
      (some (codes "abcd"))
      (some salt)
      (some drawn_nonce)
      site_a
    ≡ (
      stop (
          stream
            (codes "application/octet-stream")
            (length sent)
            (some (codes "attachment; filename=my-cloud-backup.mpcbackup"))
            sent),
      site (calm tables disk_before 0 100) magic [] true true true false,
    )
unfolding create_handler build_zip checkpoint add_storage add_files try_read try_call attempt
    read_disk read_file require or_reply reply pure on_world change database_file_of create_backup
    walk order_by insert_ordered below rel_path join_path clean elements split resolve step
    strip_common join render has_prefix byte_length ◌==◌ Site.◌>>=◌ World.◌>>=◌
create_run = refl

-- The other site has the tables and the file after it.
backup-BroughtBack_example :
    BroughtBack crypto [] packages root tables disk_before
      (restore_handler crypto [] packages root (some ann) tmp (uploaded sent (codes "abcd")) site_b)
unfolding clean elements split resolve step join render ◌==◌
backup-BroughtBack_example =
    backup-BroughtBack crypto [] packages root tmp root-IsProperRoot tmp-IsProperRoot apart
      crypto-OpensSealed packages-ZipsBack ann ann (some (codes "abcd")) (codes "abcd") salt
      drawn_nonce sent tables no_tables disk_before [] 0 100 0 200 [] [] [] true true false true
      true true false _ _ _ _ packages-OpensCheckpointed (λ file. refl) (refl, tt) tt refl refl
      (inr refl) create_run

abbrev signed_in : Site
signed_in = site after_ensure [] [] true true true false

route_restore-Settled_example :
    let x =
      route_restore library service
        (with_token token)
        crypto
        []
        packages
        root
        tmp
        (uploaded sent (codes "abcd"))
        signed_in in
    ((message : String) × (x.0 ≡ stop (error 401 message)) × (x.1 ≡ signed_in))
    ⊎ ((user : TokenUser) × (parse_token library service
            (bearer_text library service (with_token token) false)
            signed_in.world.now
          ≡ some user)
        × Settled packages signed_in AnyDisk x)
route_restore-Settled_example =
    route_restore-Settled library service (with_token token) crypto [] packages root tmp
      (uploaded sent (codes "abcd")) signed_in

opened_run :
    open_backup crypto [] (some (codes "abcd")) sent
    ≡ unpacked (length packed ∷ write_entries packed)
unfolding open_backup open_sealed strip write_entries
opened_run = refl

unzipped_run : unzip_counted (length packed ∷ write_entries packed) ≡ some packed
unzipped_run = read-write_entries packed

inside : ExtractsInside tmp packed
unfolding below join_path clean elements split resolve step strip_common join render ◌==◌
inside = (refl, (refl, tt))

-- A failing disk: the second call behind the extraction of the first entry fails.
abbrev faulty_site : Site
faulty_site =
    site (record (calm no_tables [] 0 200) { faults = false ∷ false ∷ false ∷ true ∷ [] }) [] []
      true true true false

only_packed :
    (entries : List Entry)
    → IsArchive crypto [] packages (some (codes "abcd")) sent entries
    → ExtractsInside tmp entries
only_packed entries (plaintext, opened, unzipped, essential) =
    let same : plaintext ≡ length packed ∷ write_entries packed = cc (sym opened ∙ opened_run) in
    let found : entries ≡ packed = cc (sym unzipped ∙ ap unzip_counted same ∙ unzipped_run) in
    rw found inside

failed_restore_keeps_files_example : Settled packages faulty_site (SameOutside tmp []) (
    restore_handler crypto [] packages root
      (some ann)
      tmp
      (uploaded sent (codes "abcd"))
      faulty_site)
failed_restore_keeps_files_example =
    failed_restore_keeps_files crypto [] packages root tmp (some ann) faulty_site sent
      (codes "abcd") only_packed

-- The connection of the other services is closed and nobody restarts when copying the storage fails.
abbrev full_disk : Site
full_disk =
    site
      (record (calm no_tables [] 0 200) {
        faults =
            false ∷ false ∷ false ∷ false ∷ false ∷ false ∷ false ∷ false ∷ false ∷ false ∷ false
            ∷ false ∷ false ∷ false ∷ false ∷ false ∷ false ∷ false ∷ false ∷ true ∷ [];
      })
      [] [] true true true false

stranded_run :
    let (answer, s) =
      restore_handler crypto [] packages root
        (some ann)
        tmp
        (uploaded sent (codes "abcd"))
        full_disk in
    (answer ≡ stop (error 400 "restore storage"))
    × (s.services_open ≡ false)
    × (s.restarting ≡ false)
    × (s.world.db ≡ tables)
unfolding restore_handler restore_backup read_archive has_database open_backup open_sealed strip
    read_entries write_entries with_temp restore_archive extract extract_entry put_file
    validate_sqlite copy_database write_over replace copy_storage copy_dir copy_files copy_file
    try_read try_call attempt read_disk change_disk read_file write_file remove_file remove_all
    require or_reply reply pure on_world change database_file_of walk order_by insert_ordered below
    rel_path join_path clean elements split resolve step strip_common join render ◌==◌ Site.◌>>=◌
    World.◌>>=◌
stranded_run = (refl, refl, refl, refl)

-- When copying onto the file of the database fails, the file is left truncated under the open
-- connection, and nobody restarts.
abbrev torn_copy : Site
torn_copy =
    site
      (record (calm no_tables [] 0 200) {
        faults =
            false ∷ false ∷ false ∷ false ∷ false ∷ false ∷ false ∷ false ∷ false ∷ false ∷ false
            ∷ false ∷ false ∷ false ∷ true ∷ [];
      })
      magic [] true true true false

overwritten_run :
    let (answer, s) =
      restore_handler crypto [] packages root
        (some ann)
        tmp
        (uploaded sent (codes "abcd"))
        torn_copy in
    (answer ≡ stop (error 400 "replace database file"))
    × (s.database_file ≡ [])
    × (s.services_open ≡ true)
    × (s.restarting ≡ false)
unfolding restore_handler restore_backup read_archive has_database open_backup open_sealed strip
    read_entries write_entries with_temp restore_archive extract extract_entry put_file
    validate_sqlite copy_database write_over replace copy_storage copy_dir copy_files copy_file
    try_read try_call attempt read_disk change_disk read_file write_file remove_file remove_all
    require or_reply reply pure on_world change database_file_of walk order_by insert_ordered below
    rel_path join_path clean elements split resolve step strip_common join render ◌==◌ Site.◌>>=◌
    World.◌>>=◌
overwritten_run = (refl, refl, refl, refl)

-- A name with ".." is extracted outside the temporary directory.
slipped_run :
    (extract {B = BackupBody} tmp
      (record { name = codes "../d/1/x"; content = 9 ∷ [] } ∷ [])
      (calm tables disk_before 0 100)).1.disk
    ≡ (photo, 9 ∷ []) ∷ []
unfolding extract extract_entry put_file try_call attempt change_disk write_file remove_file require
    pure join_path clean elements split resolve step step_up join render ◌==◌ World.◌>>=◌
slipped_run = refl
