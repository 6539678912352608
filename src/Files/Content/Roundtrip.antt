-- ===== src/Files/Content/Roundtrip.antt =====
-- An upload that is answered with success, and the download of the file.
use my_personal_cloud.Prelude.{
  ℕ, ◌++◌, ◌==◌, ◌≡◌, refl, ap, ◌∙◌, Bool, true, false, List, [], ◌∷◌, Option, none, some, Text,
  codes, length, arith, any, find, eq_refl, Bool-cases, inl, inr, if◌then◌else◌,
}
use my_personal_cloud.GoPath.Canonical.{IsPlain}
use my_personal_cloud.World.{
  Database, Disk, Env, World, FileRow, Response, stop, json, stream, ◌>>=◌, or_reply, reply, fetch,
  query, exec, pure,
}
use my_personal_cloud.World.Triple.{
  Assertion, Triple, bind-Triple, weaken, pull, reply-Triple, pure-Triple, require-Triple,
  or_reply-Triple, clock-Triple, new_uuid-Triple,
}
use my_personal_cloud.World.Calls.{query-Triple, exec-Triple}
use my_personal_cloud.Auth.{User, authenticated}
use my_personal_cloud.Storage.{open_file, attempt, read_disk, delete_file, change_disk}
use my_personal_cloud.Storage.Containment.{IsProperRoot}
use my_personal_cloud.Storage.Retrieval.{Holds, Saved, save-Triple}
use my_personal_cloud.Files.Names.{normalize_parent, sanitize_filename}
use my_personal_cloud.Files.Api.{Body, File, UploadForm, file, file_view, is_file, insert_file}
use my_personal_cloud.Files.Content.{
  refuse_duplicate, file_conflict, finish_upload, upload_handler, lookup, download_handler,
  attachment,
}

-- The file that the response shows is a row of the user with the name and the folder of the form,
-- and the store holds the contents.
abbrev pub Kept : Env → User → UploadForm → Text × List ℕ → File → Assertion
Kept env user form part v db disk =
    (row : FileRow) × (find (is_file v.id user.id) db.files ≡ some row)
    × (v ≡ file_view row)
    × (row.name ≡ sanitize_filename part.0)
    × (row.parent_path ≡ normalize_parent form.path)
    × (row.size_bytes ≡ length part.1)
    × Holds env row.storage_path part.1 disk

-- Nothing is claimed of the other responses.
abbrev pub Answer : Env → User → UploadForm → Text × List ℕ → Response Body → Assertion
Answer env user form part (json n (file v)) = Kept env user form part v
Answer env user form part _ = λ db disk. Unit

module _ (p : FileRow → Bool) where
  find-append :
      (xs : List FileRow) (r : FileRow)
      → any p xs ≡ false
      → p r ≡ true
      → find p (xs ++ r ∷ []) ≡ some r
  find-append [] r h e = rw e refl
  find-append (x ∷ xs) r h e = elim (Bool-cases (p x)) [
    | inl f ↦ absurd (cc (rw f at h))
    | inr f ↦ rw f (find-append xs r (rw f at h) e)
  ]

any-weaker :
    (id : Text) (u : ℕ) (xs : List FileRow)
    → any (λ f. f.id == id) xs ≡ false
    → any (is_file id u) xs ≡ false
any-weaker id u [] h = refl
any-weaker id u (x ∷ xs) h = ground (arith, any-weaker id u xs)

insert_file-find :
    (r : FileRow) (u : ℕ) (db db' : Database) (n : ℕ)
    → r.user_id ≡ u
    → insert_file r db ≡ some (db', n)
    → find (is_file r.id u) db'.files ≡ some r
unfolding insert_file
insert_file-find r u db db' n e h =
    let fresh : any (λ f. f.id == r.id) db.files ≡ false = ground arith in
    let own : is_file r.id u r ≡ true = ground (arith, eq_refl r.id) in
    let found = find-append (is_file r.id u) db.files r (any-weaker r.id u db.files fresh) own in
    ground arith

module _ (env : Env) (user : User) (form : UploadForm) (part : Text × List ℕ) where
  abbrev Start : Assertion
  Start db disk = Unit

  -- The row is there with the contents, unless the statement failed.
  abbrev Inserted : FileRow → Option ℕ → Assertion
  Inserted row none db disk = Unit
  Inserted row (some n) db disk =
      (find (is_file row.id user.id) db.files ≡ some row) × Holds env row.storage_path part.1 disk

  finish_upload-Kept :
      (row : FileRow) (o : Option ℕ)
      → row.name ≡ sanitize_filename part.0
      → row.parent_path ≡ normalize_parent form.path
      → row.size_bytes ≡ length part.1
      → Triple
          (Inserted row o)
          (Answer env user form part)
          (λ _ _ _. Unit)
          (finish_upload env row o)
  unfolding finish_upload delete_file attempt ◌>>=◌ reply change_disk
  finish_upload-Kept row none a b c = record { run = λ w p. tt }
  finish_upload-Kept row (some n) a b c = record { run = λ w p. (row, p.0, refl, a, b, c, p.1) }

  refuse_duplicate-Triple :
      (o : Option (Option FileRow))
      → Triple Start
          (Answer env user form part)
          (λ _. Start)
          (refuse_duplicate file_conflict (λ (r : FileRow). r.id) o)
  unfolding refuse_duplicate
  refuse_duplicate-Triple none = pure-Triple tt (λ db disk p. p)
  refuse_duplicate-Triple (some none) = pure-Triple tt (λ db disk p. p)
  refuse_duplicate-Triple (some (some r)) = reply-Triple _ (λ db disk p. tt)

  insert-Triple :
      (row : FileRow)
      → row.user_id ≡ user.id
      → Triple
          (λ db disk. Holds env row.storage_path part.1 disk)
          (Answer env user form part)
          (Inserted row)
          (exec (insert_file row))
  insert-Triple row own =
      exec-Triple (insert_file row) (λ db disk p. tt)
        λ db disk db' n p e. (insert_file-find row user.id db db' n own e, p)

  saved-or_reply :
      (r : Response Body) (o : Option (Text × ℕ))
      → ((db : Database) (disk : Disk) → Answer env user form part r db disk)
      → Triple
          (Saved env part.1 o)
          (Answer env user form part)
          (λ kept. Saved env part.1 (some kept))
          (or_reply o r)
  unfolding or_reply
  saved-or_reply r none h = record { run = λ w p. h w.db w.disk }
  saved-or_reply r (some kept) h = record { run = λ w p. p }

  module _ (proper : IsProperRoot env.storage_root) (plain : (n : ℕ) → IsPlain (env.uuid_of n))
      (whole : form.file ≡ some part) where
    upload-Kept :
        Triple Start
          (Answer env user form part)
          (λ _ _ _. Unit)
          (upload_handler env (some user) (some form))
    unfolding upload_handler authenticated
    upload-Kept = bind-Triple (or_reply-Triple (some user) _ (λ db disk p. p)) λ u.
        pull λ (same : some user ≡ some u).
          bind-Triple (or_reply-Triple (some form) _ (λ db disk p. p)) λ f.
            pull λ (form_same : some form ≡ some f).
              bind-Triple (require-Triple _ _ (λ db disk p. p)) λ _. pull λ _.
                bind-Triple (or_reply-Triple f.file _ (λ db disk p. p)) λ found.
                  pull λ (part_same : f.file ≡ some found).
                    bind-Triple (require-Triple _ _ (λ db disk p. p)) λ _. pull λ _.
                      bind-Triple
                        (query-Triple {Q = λ _. Start} _ (λ db disk p. p) (λ db disk p. p))
                        λ existing. bind-Triple (refuse_duplicate-Triple existing) λ _.
                          let u_is : u ≡ user = cc same in
                          let f_is : f ≡ form = cc form_same in
                          let whole_too : f.file ≡ some part = rw f_is whole in
                          let part_is : found ≡ part = cc (part_same, whole_too) in
                          rw part_is (
                            bind-Triple (save-Triple env proper plain u.id part.1) λ stored.
                              bind-Triple (saved-or_reply _ stored (λ db disk. tt)) λ kept.
                                bind-Triple (new_uuid-Triple env) λ id.
                                  bind-Triple clock-Triple λ now.
                                    weaken (λ db disk p. (p.0, p.1))
                                      (pull λ size.
                                        bind-Triple (insert-Triple _ (ap (λ (v : User). v.id) u_is))
                                          λ o.
                                            finish_upload-Kept _ o refl
                                              (ap (λ (g : UploadForm). normalize_parent g.path)
                                                f_is)
                                              size))

download_kept :
    (env : Env) (user : User) (id inline : Text) (content : List ℕ) (w : World) (row : FileRow)
    → find (is_file id user.id) w.db.files ≡ some row
    → Holds env row.storage_path content w.disk
    → (download_handler env (some user) id inline (record w { faults = [] })).0
      ≡ stop (
          stream row.mime_type row.size_bytes
            (if inline == codes "1" then none else some (attachment row.name))
            content)
unfolding download_handler authenticated or_reply lookup fetch query open_file attempt read_disk
    pure reply ◌>>=◌
download_kept env user id inline content w row h k = rw (h, k) refl

-- Where the store's root names a directory and the generated identifiers are plain names: when an
-- upload is answered with 201 and a file, whichever calls failed on the way, that file has the
-- sanitized name and the normalized folder of the form, and downloading it from the world that the
-- upload left, where no further call fails, streams the uploaded bytes with their number as the
-- length and the file's name and content type.
pub uploaded_file_downloads :
    (env : Env) (user : User) (form : UploadForm) (part : Text × List ℕ) (w w' : World) (v : File)
    (inline : Text)
    → IsProperRoot env.storage_root
    → ((n : ℕ) → IsPlain (env.uuid_of n))
    → form.file ≡ some part
    → upload_handler env (some user) (some form) w ≡ (stop (json 201 (file v)), w')
    → (v.name ≡ sanitize_filename part.0)
      × (v.parent_path ≡ normalize_parent form.path)
      × ((download_handler env (some user) v.id inline (record w' { faults = [] })).0
          ≡ stop (
              stream v.mime_type
                (length part.1)
                (if inline == codes "1" then none else some (attachment v.name))
                part.1))
uploaded_file_downloads env user form part w w' v inline proper plain whole h =
    let (row, found, shown, name, folder, size, held) : Kept env user form part v w'.db w'.disk =
      rw h at ((upload-Kept env user form part proper plain whole).run w tt) in
    (
      ap (λ (x : File). x.name) shown ∙ name,
      ap (λ (x : File). x.parent_path) shown ∙ folder,
      rw (shown, ← size)
          (download_kept env user row.id inline part.1 w' row (rw shown at found) held),
    )
