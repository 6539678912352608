-- ===== src/Backup/Calls.antt =====
-- What the steps of RestoreBackup on the disk keep, whichever calls fail: a fact that holds before
-- and that no write of theirs breaks.
use my_personal_cloud.Prelude.{
  ℕ, ◌≡◌, refl, sym, Bool, true, false, List, [], ◌∷◌, Option, some, Text, String, All, Bool-cases,
  inl, inr,
}
use my_personal_cloud.GoPath.{join_path}
use my_personal_cloud.World.{Database, Disk, Response, error, require, or_reply}
use my_personal_cloud.World.Triple.{
  Assertion, Triple, bind-Triple, relax, pull, reply-Triple, pure-Triple, require-Triple,
  or_reply-Triple,
}
use my_personal_cloud.Storage.{rel_path, write_file, attempt, change_disk, read_disk}
use my_personal_cloud.Backup.{
  Bytes, Crypto, Unpacked, bad_magic, unsupported_version, passkey_required, unknown_key_type,
  cipher_failed, bad_key, unpacked, open_backup,
}
use my_personal_cloud.Backup.Archive.{
  Entry, Packages, walk, try_call, try_read, has_database, read_archive, plaintext_of,
}
use my_personal_cloud.Backup.Copying.{
  put_file, is_directory, extract_entry, extract, validate_sqlite, copy_file, copy_files, copy_dir,
  copied_storage, copy_storage,
}

-- An answer of `writeJSONError`.
abbrev pub IsError : {B : Type 0} → Response B → Type 0
IsError r = (code : ℕ) × (message : String) × (r ≡ error code message)

abbrev pub an_error :
    {B : Type 0} (code : ℕ) (message : String) → IsError {B = B} (error code message)
an_error code message = (code, message, refl)

-- The backup file holds an archive with these entries, the database among them.
abbrev pub IsArchive : Crypto → Bytes → Packages → Option Text → Bytes → List Entry → Type 0
IsArchive c jwt_secret out given file entries =
    (plaintext : Bytes) × (open_backup c jwt_secret given file ≡ unpacked plaintext)
    × (out.unzip plaintext ≡ some entries)
    × (has_database entries ≡ true)

-- Writing the file keeps `P`.
abbrev pub Writable : Assertion → Text → Type 0
Writable P path =
    (db : Database) (disk : Disk) (bytes : Bytes) → P db disk → P db (write_file path bytes disk)

-- After an answer: it is an error, and `P` still holds.
abbrev pub Fails : {B : Type 0} → Assertion → Response B → Assertion
Fails P r db disk = IsError r × P db disk

fails :
    {B : Type 0} (P : Assertion) (r : Response B)
    → IsError r
    → (db : Database) (disk : Disk) → P db disk
    → Fails P r db disk
fails P r e db disk p = (e, p)

module _ {B : Type 0} {P : Assertion} where
  attempt-Triple : {E : Response B → Assertion} → Triple P E (λ _. P) attempt
  unfolding attempt
  attempt-Triple = record { run = λ w p. p }

  change_disk-Triple :
      {E : Response B → Assertion} (f : Disk → Disk)
      → ((db : Database) (disk : Disk) → P db disk → P db (f disk))
      → Triple P E (λ _. P) (change_disk f)
  unfolding change_disk
  change_disk-Triple f h = record { run = λ w p. h w.db w.disk p }

  read_disk-Triple :
      {E : Response B → Assertion} (path : Text) → Triple P E (λ _. P) (read_disk path)
  unfolding read_disk
  read_disk-Triple path = record { run = λ w p. p }

  required :
      (b : Bool) (r : Response B) → IsError r → Triple {B = B} P (Fails P) (λ _. P) (require b r)
  required b r e = relax (require-Triple b r (fails P r e)) (λ a db disk p. p.0)

  found :
      {A : Type 0} (o : Option A) (r : Response B)
      → IsError r
      → Triple {B = B} P (Fails P) (λ _. P) (or_reply o r)
  found o r e = relax (or_reply-Triple o r (fails P r e)) (λ a db disk p. p.0)

  pub try_call-Triple :
      (r : Response B) → IsError r → Triple {B = B} P (Fails P) (λ _. P) (try_call r)
  unfolding try_call
  try_call-Triple r e = bind-Triple attempt-Triple λ done. required done r e

  pub try_read-Triple :
      (path : Text) (r : Response B)
      → IsError r
      → Triple {B = B} P (Fails P) (λ _. P) (try_read path r)
  unfolding try_read
  try_read-Triple path r e =
      bind-Triple (try_call-Triple r e)
        λ _. bind-Triple (read_disk-Triple path) λ content. found content r e

  put_file-Triple :
      (path : Text) (content : Bytes) (no_file no_copy : Response B)
      → IsError no_file
      → IsError no_copy
      → Writable P path
      → Triple {B = B} P (Fails P) (λ _. P) (put_file path content no_file no_copy)
  unfolding put_file
  put_file-Triple path content no_file no_copy e f h = bind-Triple (try_call-Triple no_file e) λ _.
      bind-Triple (change_disk-Triple _ (λ db disk p. h db disk [] p)) λ _.
        bind-Triple (try_call-Triple no_copy f)
          λ _. change_disk-Triple _ (λ db disk p. h db disk content p)

  extract_entry-Triple :
      (tmp : Text) (e : Entry)
      → Writable P (join_path tmp e.name)
      → Triple {B = B} P (Fails P) (λ _. P) (extract_entry tmp e)
  unfolding extract_entry
  extract_entry-Triple tmp e h = elim (Bool-cases (is_directory e.name)) [
    | inl d ↦ rw d (try_call-Triple _ (an_error _ _))
    | inr d ↦ rw d (
        bind-Triple (try_call-Triple _ (an_error _ _)) λ _.
          bind-Triple (try_call-Triple _ (an_error _ _))
            λ _. put_file-Triple _ _ _ _ (an_error _ _) (an_error _ _) h)
  ]

  pub extract-Triple :
      (tmp : Text) (entries : List Entry)
      → All (λ e. Writable P (join_path tmp e.name)) entries
      → Triple {B = B} P (Fails P) (λ _. P) (extract tmp entries)
  unfolding extract
  extract-Triple tmp [] h = pure-Triple tt (λ db disk p. p)
  extract-Triple tmp (e ∷ entries) h =
      bind-Triple (extract_entry-Triple tmp e h.0) λ _. extract-Triple tmp entries h.1

  pub validate_sqlite-Triple :
      (tmp : Text) → Triple {B = B} P (Fails P) (λ _. P) (validate_sqlite tmp)
  unfolding validate_sqlite
  validate_sqlite-Triple tmp =
      bind-Triple (try_read-Triple _ _ (an_error _ _))
        λ content. bind-Triple (try_call-Triple _ (an_error _ _)) λ _. required _ _ (an_error _ _)

  copy_file-Triple :
      (src dst : Text) (r : Response B)
      → IsError r
      → Writable P dst
      → Triple {B = B} P (Fails P) (λ _. P) (copy_file src dst r)
  unfolding copy_file
  copy_file-Triple src dst r e h = bind-Triple (try_read-Triple src r e) λ content.
      bind-Triple (try_call-Triple r e)
        λ _. bind-Triple (put_file-Triple dst content r r e e h) λ _. try_call-Triple r e

  copy_files-Triple :
      (src dst : Text) (r : Response B) (paths : List Text)
      → IsError r
      → ((path : Text) → Writable P (join_path dst path))
      → Triple {B = B} P (Fails P) (λ _. P) (copy_files src dst r paths)
  unfolding copy_files
  copy_files-Triple src dst r [] e h = pure-Triple tt (λ db disk p. p)
  copy_files-Triple src dst r (path ∷ paths) e h = bind-Triple (try_call-Triple r e) λ _.
      bind-Triple (copy_file-Triple path _ r e (h (rel_path src path)))
        λ _. copy_files-Triple src dst r paths e h

  copy_dir-Triple :
      (src dst : Text) (r : Response B)
      → IsError r
      → ((path : Text) → Writable P (join_path dst path))
      → Triple {B = B} P (Fails P) (λ _. P) (copy_dir src dst r)
  unfolding copy_dir
  copy_dir-Triple src dst r e h = record {
    run = λ w p. (copy_files-Triple src dst r (walk src w.disk) e h).run w p;
  }

  pub copy_storage-Triple :
      (tmp root : Text)
      → ((path : Text) → Writable P (join_path root path))
      → Triple {B = B} P (Fails P) (λ _. P) (copy_storage tmp root)
  unfolding copy_storage
  copy_storage-Triple tmp root h = bind-Triple attempt-Triple λ found. chosen found
    where
      chosen : (found : Bool) → Triple {B = B} P (Fails P) (λ _. P) (copied_storage found tmp root)
      chosen true = copy_dir-Triple _ root _ (an_error _ _) h
      chosen false = pure-Triple tt (λ db disk p. p)

  archived :
      (c : Crypto) (jwt_secret : Bytes) (given : Option Text) (file : Bytes) (u : Unpacked)
      → u ≡ open_backup c jwt_secret given file
      → Triple {B = B} P
          (Fails P)
          (λ plaintext db disk.
            P db disk × (open_backup c jwt_secret given file ≡ unpacked plaintext))
          (plaintext_of u)
  archived c jwt_secret given file bad_magic e = reply-Triple _ (fails P _ (an_error _ _))
  archived c jwt_secret given file (unsupported_version n) e =
      reply-Triple _ (fails P _ (an_error _ _))
  archived c jwt_secret given file passkey_required e = reply-Triple _ (fails P _ (an_error _ _))
  archived c jwt_secret given file (unknown_key_type n) e =
      reply-Triple _ (fails P _ (an_error _ _))
  archived c jwt_secret given file cipher_failed e = reply-Triple _ (fails P _ (an_error _ _))
  archived c jwt_secret given file bad_key e = reply-Triple _ (fails P _ (an_error _ _))
  archived c jwt_secret given file (unpacked plaintext) e =
      pure-Triple plaintext (λ db disk p. (p, sym e))

  module _ (c : Crypto) (jwt_secret : Bytes) (out : Packages) (given : Option Text)
      (file : Bytes) where
    -- The entries are those of the decrypted archive.
    pub read_archive-Triple :
        Triple {B = B} P
          (Fails P)
          (λ entries db disk. P db disk × IsArchive c jwt_secret out given file entries)
          (read_archive c jwt_secret out given file)
    unfolding read_archive
    read_archive-Triple = bind-Triple (archived c jwt_secret given file _ refl) λ plaintext.
        pull λ (opened : open_backup c jwt_secret given file ≡ unpacked plaintext).
          bind-Triple (or_reply-Triple (out.unzip plaintext) _ (fails P _ (an_error _ _)))
            λ entries. pull λ (unzipped : out.unzip plaintext ≡ some entries).
              bind-Triple (require-Triple (has_database entries) _ (fails P _ (an_error _ _))) λ _.
                pull λ (essential : has_database entries ≡ true).
                  pure-Triple entries (λ db disk p. (p, (plaintext, opened, unzipped, essential)))
