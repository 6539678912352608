-- ===== src/Files/Changes/Contents.antt =====
-- What becomes of the contents of a file that goes to the trash and comes back.
use my_personal_cloud.Prelude.{
  ℕ, ◌≡◌, refl, ap, Bool, true, false, not, ◌&&◌, List, [], ◌∷◌, none, some, Text, arith, find,
  nat_eq, Bool-cases, inl, inr, if◌then◌else◌,
}
use my_personal_cloud.Sql.{update, count}
use my_personal_cloud.World.{
  Database, Disk, Env, World, FileRow, stop, bare, error, ◌>>=◌, reply, require, or_reply, pure,
  clock, query, exec, fetch, execute,
}
use my_personal_cloud.Auth.{User, authenticated}
use my_personal_cloud.Storage.{
  abs, read_file, remove_file, attempt, change_disk, read_disk, open_file, delete_file,
}
use my_personal_cloud.Files.Api.{is_file, is_active, update_files}
use my_personal_cloud.Files.Content.{lookup, download_handler}
use my_personal_cloud.Files.Changes.{mark_deleted, mark_restored, delete_handler, restore_handler}

module _ {A : Type 0} where
  pub find-update :
      (q p : A → Bool) (f : A → A) (xs : List A) {x : A}
      → ((y : A) → q (f y) ≡ q y)
      → find q xs ≡ some x
      → find q (update p f xs) ≡ some (if p x then f x else x)
  find-update q p f [] same h = absurd (cc h)
  find-update q p f (y ∷ ys) {x} same h = elim (Bool-cases (q y)) [
    | inl e ↦
        let s : y ≡ x = cc (rw e at h) in
        rw (← s)
          (elim (Bool-cases (p y)) [ inl k ↦ rw (k, same y, e) refl | inr k ↦ rw (k, e) refl ])
    | inr e ↦
        let rest = find-update q p f ys same (rw e at h) in
        elim (Bool-cases (p y)) [ inl k ↦ rw (k, same y, e) rest | inr k ↦ rw (k, e) rest ]
  ]

  find-changed :
      (q p : A → Bool) (f : A → A) (xs : List A) {x : A}
      → ((y : A) → p y ≡ true → q (f y) ≡ true)
      → ((y : A) → p y ≡ false → q y ≡ false)
      → find p xs ≡ some x
      → find q (update p f xs) ≡ some (f x)
  find-changed q p f [] hit miss h = absurd (cc h)
  find-changed q p f (y ∷ ys) {x} hit miss h = elim (Bool-cases (p y)) [
    | inl e ↦ let s : y ≡ x = cc (rw e at h) in rw (e, hit y e) (ap (λ z. some (f z)) s)
    | inr e ↦ rw (e, miss y e) (find-changed q p f ys hit miss (rw e at h))
  ]

  count-find :
      (p : A → Bool) (xs : List A) {x : A} → find p xs ≡ some x → nat_eq (count p xs) 0 ≡ false
  count-find p [] h = absurd (cc h)
  count-find p (y ∷ ys) h = elim (Bool-cases (p y)) [
    | inl e ↦ rw e (ground arith)
    | inr e ↦ rw e (count-find p ys (rw e at h))
  ]

  pub find_holds : (p : A → Bool) (xs : List A) {x : A} → find p xs ≡ some x → p x ≡ true
  find_holds p [] h = absurd (cc h)
  find_holds p (y ∷ ys) {x} h = elim (Bool-cases (p y)) [
    | inl e ↦ let s : y ≡ x = cc (rw e at h) in rw (← s) e
    | inr e ↦ find_holds p ys (rw e at h)
  ]

read-remove_file : (path : Text) (disk : Disk) → read_file path (remove_file path disk) ≡ none
unfolding read_file remove_file
read-remove_file path [] = refl
read-remove_file path ((p, bytes) ∷ disk) = ground (arith, read-remove_file path disk)

-- A world in which no call fails.
abbrev pub calm : Database → Disk → ℕ → ℕ → World
calm db disk uuids now = record { db = db; disk = disk; faults = []; uuids_used = uuids; now = now }

module _ (env : Env) (user : User) (id : Text) (uuids now : ℕ) where
  abbrev mine : FileRow → Bool
  mine = is_file id user.id

  abbrev in_trash : FileRow → Bool
  in_trash r = is_file id user.id r && not (is_active r)

  pub delete_calm :
      (db : Database) (disk : Disk) (r : FileRow)
      → find mine db.files ≡ some r
      → delete_handler env (some user) id (calm db disk uuids now) ≡ (
        stop (bare 204),
        calm
            (record db { files = update mine (mark_deleted now) db.files })
            (remove_file (abs env.storage_root r.storage_path) disk)
            uuids
            now,
      )
  unfolding delete_handler authenticated or_reply lookup fetch query clock execute exec update_files
      delete_file attempt change_disk reply ◌>>=◌
  delete_calm db disk r h = rw h refl

  restore_calm :
      (db : Database) (disk : Disk)
      → nat_eq (count in_trash db.files) 0 ≡ false
      → restore_handler (some user) id (calm db disk uuids now) ≡ (
        stop (bare 204),
        calm (record db { files = update in_trash mark_restored db.files }) disk uuids now,
      )
  unfolding restore_handler authenticated or_reply execute exec update_files require reply ◌>>=◌
  restore_calm db disk h = rw h refl

  download_calm :
      (db : Database) (disk : Disk) (r : FileRow) (inline : Text)
      → find mine db.files ≡ some r
      → read_file (abs env.storage_root r.storage_path) disk ≡ none
      → (download_handler env (some user) id inline (calm db disk uuids now)).0
        ≡ stop (error 500 "open failed")
  unfolding download_handler authenticated or_reply lookup fetch query open_file attempt read_disk
      pure ◌>>=◌
  download_calm db disk r inline h k = rw (h, k) refl

-- Where no call fails, deleting a file of the user and restoring it are both answered with 204,
-- and downloading the restored file is answered with the error 500: the contents were removed with
-- the deletion.
pub restored_file_has_no_contents :
    (env : Env) (user : User) (id inline : Text) (uuids now : ℕ) (db : Database) (disk : Disk)
    (r : FileRow)
    → find (is_file id user.id) db.files ≡ some r
    → let (deleted, w1) = delete_handler env (some user) id (calm db disk uuids now) in
      let (restored, w2) = restore_handler (some user) id w1 in
      (deleted ≡ stop (bare 204))
      × (restored ≡ stop (bare 204))
      × ((download_handler env (some user) id inline w2).0 ≡ stop (error 500 "open failed"))
restored_file_has_no_contents env user id inline uuids now db disk r h =
    let q = find_holds (is_file id user.id) db.files h in
    let d : Text = abs env.storage_root r.storage_path in
    let db1 = record db { files = update (is_file id user.id) (mark_deleted now) db.files } in
    let marked : find (is_file id user.id) db1.files ≡ some (mark_deleted now r) = rw q at (
      find-update (is_file id user.id) (is_file id user.id) (mark_deleted now) db.files (λ y. refl)
        h) in
    let gone : find (in_trash env user id uuids now) db1.files ≡ some (mark_deleted now r) =
      find-changed (in_trash env user id uuids now) (is_file id user.id) (mark_deleted now) db.files
        (λ y e. ground arith) (λ y e. ground arith) h in
    let db2 = record db1 {
      files = update (in_trash env user id uuids now) mark_restored db1.files;
    } in
    let back : find (is_file id user.id) db2.files ≡ some (mark_restored (mark_deleted now r)) =
      rw q at (
        find-update (is_file id user.id) (in_trash env user id uuids now) mark_restored db1.files
          (λ y. refl) marked) in
    rw
      (
        delete_calm env user id uuids now db disk r h,
        restore_calm env user id uuids now db1 (remove_file d disk)
            (count-find (in_trash env user id uuids now) db1.files gone),
      )
      (
        refl,
        refl,
        download_calm env user id uuids now db2 (remove_file d disk) _ inline back
            (read-remove_file d disk),
      )
