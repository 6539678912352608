-- ===== src/Backup/Runs.antt =====
-- The steps of a backup and of a restore where no call fails.
use my_personal_cloud.Prelude.{
  ℕ, ◌≡◌, refl, sym, ap, ◌∙◌, ◌==◌, inl, inr, true, false, List, [], ◌∷◌, some, Text, All,
  Bool-cases, take, map, if◌then◌else◌,
}
use my_personal_cloud.GoPath.{join_path}
use my_personal_cloud.World.{Database, Disk, Response, next, ◌>>=◌, pure, require, or_reply}
use my_personal_cloud.Storage.{rel_path, read_file, attempt, change_disk, read_disk}
use my_personal_cloud.Files.Changes.Contents.{calm}
use my_personal_cloud.Backup.{Bytes}
use my_personal_cloud.Backup.Archive.{
  Entry, database_name, storage_name, below, try_call, try_read, add_files,
}
use my_personal_cloud.Backup.Copying.{
  put_file, magic, is_directory, extract_entry, extract, validate_sqlite, copy_file, copy_files,
}
use my_personal_cloud.Backup.Writes.{put, puts, read-put_other}

-- What the extraction writes.
unfoldable pub outputs : Text → List Entry → List (Text × Bytes)
outputs tmp [] = []
outputs tmp (e ∷ entries) =
    let rest = outputs tmp entries in
    if is_directory e.name then rest else (join_path tmp e.name, e.content) ∷ rest

-- The entries of files, and what copying files to another directory writes.
abbrev pub entry_of : Text → Text × Bytes → Entry
entry_of root (path, content) = record {
  name = join_path storage_name (rel_path root path);
  content = content;
}

abbrev pub copy_of : Text → Text → Text × Bytes → Text × Bytes
copy_of src dst (path, content) = (join_path dst (rel_path src path), content)

-- The file is there, outside the directory that it is copied to.
abbrev pub Copied : Text → Text → Disk → Text × Bytes → Type 0
Copied src dst disk file =
    (read_file file.0 disk ≡ some file.1)
    × (below dst file.0 ≡ false)
    × (below dst (copy_of src dst file).0 ≡ true)

module _ {B : Type 0} (db : Database) (uuids now : ℕ) where
  extract_entry-calm :
      (tmp : Text) (e : Entry) (disk : Disk)
      → extract_entry {B = B} tmp e (calm db disk uuids now) ≡ (
        next tt,
        calm db
            (if is_directory e.name then disk else put (join_path tmp e.name) e.content disk)
            uuids
            now,
      )
  unfolding extract_entry try_call put_file attempt change_disk require ◌>>=◌ put
  extract_entry-calm tmp e disk = elim (Bool-cases (is_directory e.name)) [
    | inl d ↦ rw d refl
    | inr d ↦ rw d refl
  ]

  pub extract-calm :
      (tmp : Text) (entries : List Entry) (disk : Disk)
      → extract {B = B} tmp entries (calm db disk uuids now)
        ≡ (next tt, calm db (puts (outputs tmp entries) disk) uuids now)
  unfolding extract outputs puts pure ◌>>=◌
  extract-calm tmp [] disk = refl
  extract-calm tmp (e ∷ entries) disk =
      rw (extract_entry-calm tmp e disk) (elim (Bool-cases (is_directory e.name)) [
        | inl d ↦ rw d (extract-calm tmp entries disk)
        | inr d ↦ rw d (extract-calm tmp entries (put (join_path tmp e.name) e.content disk))
      ])

  pub try_read-calm :
      (path : Text) (r : Response B) (disk : Disk) {content : Bytes}
      → read_file path disk ≡ some content
      → try_read path r (calm db disk uuids now) ≡ (next content, calm db disk uuids now)
  unfolding try_read try_call attempt require read_disk or_reply ◌>>=◌
  try_read-calm path r disk h = rw h refl

  pub validate_sqlite-calm :
      (tmp : Text) (disk : Disk) {content : Bytes}
      → read_file (join_path tmp database_name) disk ≡ some content
      → (take 16 content == magic) ≡ true
      → validate_sqlite {B = B} tmp (calm db disk uuids now) ≡ (next tt, calm db disk uuids now)
  unfolding validate_sqlite try_read try_call attempt require read_disk or_reply ◌>>=◌
  validate_sqlite-calm tmp disk h k = rw (h, k) refl

  copy_file-calm :
      (src dst : Text) (r : Response B) (disk : Disk) {content : Bytes}
      → read_file src disk ≡ some content
      → copy_file src dst r (calm db disk uuids now)
        ≡ (next tt, calm db (put dst content disk) uuids now)
  unfolding copy_file try_read try_call put_file attempt require read_disk or_reply change_disk put
      ◌>>=◌
  copy_file-calm src dst r disk h = rw h refl

  module _ (src dst : Text) (r : Response B) where
    Copied-put :
        (path : Text) (content : Bytes) (disk : Disk) (files : List (Text × Bytes))
        → below dst path ≡ true
        → All (Copied src dst disk) files
        → All (Copied src dst (put path content disk)) files
    Copied-put path content disk [] h k = tt
    Copied-put path content disk (file ∷ files) h k = (
      (
        read-put_other file.0 path content disk (λ q. cc (sym k.0.1 ∙ ap (below dst) q ∙ h))
            ∙ k.0.0,
        k.0.1,
        k.0.2,
      ),
      Copied-put path content disk files h k.1,
    )

    pub copy_files-calm :
        (files : List (Text × Bytes)) (disk : Disk)
        → All (Copied src dst disk) files
        → copy_files src dst r (map (λ f. f.0) files) (calm db disk uuids now)
          ≡ (next tt, calm db (puts (map (copy_of src dst) files) disk) uuids now)
    unfolding copy_files puts pure try_call attempt require ◌>>=◌
    copy_files-calm [] disk h = refl
    copy_files-calm ((path, content) ∷ files) disk h =
        let dest : Text = join_path dst (rel_path src path) in
        rw (copy_file-calm path dest r disk h.0.0) (
          copy_files-calm files (put dest content disk)
            (Copied-put dest content disk files h.0.2 h.1))

  pub add_files-calm :
      (root : Text) (r : Response B) (files : List (Text × Bytes)) (disk : Disk)
      → All (λ f. read_file f.0 disk ≡ some f.1) files
      → add_files r root (map (λ f. f.0) files) (calm db disk uuids now)
        ≡ (next (map (entry_of root) files), calm db disk uuids now)
  unfolding add_files try_call try_read attempt require read_disk or_reply pure ◌>>=◌
  add_files-calm root r [] disk h = refl
  add_files-calm root r ((path, content) ∷ files) disk h =
      rw (h.0, add_files-calm root r files disk h.1) refl
