-- ===== src/Photos/Thumbs.antt =====
-- The cache of thumbnails of internal/photos/photos.go.
use my_personal_cloud.Prelude.{
  ℕ, ◌≡◌, ◌≢◌, refl, sym, ◌∙◌, ◌++◌, true, List, [], ◌∷◌, none, some, Text, codes, length, find,
  Bool-cases, inl, inr,
}
use my_personal_cloud.Decimal.{atoi}
use my_personal_cloud.Sql.{update}
use my_personal_cloud.World.{
  Database, Disk, Env, FileRow, stop, bare, stream, ◌>>=◌, pure, reply, or_reply, query, fetch,
}
use my_personal_cloud.Auth.{User, authenticated}
use my_personal_cloud.Storage.{
  abs, read_file, write_file, remove_file, attempt, change_disk, read_disk, open_file,
}
use my_personal_cloud.Storage.Retrieval.{read-write_file}
use my_personal_cloud.Files.Api.{is_file}
use my_personal_cloud.Files.Changes.{delete_handler, mark_deleted}
use my_personal_cloud.Files.Changes.Contents.{calm, find-update, find_holds, delete_calm}
use my_personal_cloud.Storage.Reading.{read-remove_other}
use my_personal_cloud.Photos.{
  Images, is_photo, size_of, thumb_path, thumbnail, lookup_image, thumb_handler, stat,
  generate_thumb, store_thumb, rename_thumb,
}

module _ {P : Type 0} (images : Images P) (env : Env) (user : User) (id size_text : Text)
    (uuids now : ℕ) where
  abbrev path : Text
  path = thumb_path env id (size_of (atoi size_text))

  abbrev tmp : Text
  tmp = path ++ codes ".tmp"

  -- A thumbnail that is on the disk is sent as it is.
  cached_calm :
      (db : Database) (disk : Disk) (row : FileRow) (bytes : List ℕ)
      → find (is_photo id user.id) db.files ≡ some row
      → read_file path disk ≡ some bytes
      → thumb_handler images env (some user) id size_text (calm db disk uuids now)
        ≡ (stop (stream (codes "image/jpeg") (length bytes) none bytes), calm db disk uuids now)
  unfolding thumb_handler authenticated or_reply lookup_image fetch query stat attempt read_disk
      pure reply ◌>>=◌
  cached_calm db disk row bytes h k = rw (h, k, k) refl

  -- What generateThumb leaves on the disk.
  abbrev stored : List ℕ → Disk → Disk
  stored bytes disk = write_file path bytes (remove_file tmp (write_file tmp bytes disk))

  made_calm :
      (db : Database) (disk : Disk) (row : FileRow) (bytes : List ℕ)
      → find (is_photo id user.id) db.files ≡ some row
      → read_file path disk ≡ none
      → thumbnail images
          (read_file (abs env.storage_root row.storage_path) disk)
          (size_of (atoi size_text))
        ≡ some bytes
      → thumb_handler images env (some user) id size_text (calm db disk uuids now) ≡ (
        stop (stream (codes "image/jpeg") (length bytes) none bytes),
        calm db (stored bytes disk) uuids now,
      )
  unfolding thumb_handler authenticated or_reply lookup_image fetch query stat attempt read_disk
      pure reply generate_thumb open_file store_thumb rename_thumb change_disk ◌>>=◌
  made_calm db disk row bytes h k t =
      rw
        (
          h,
          k,
          k,
          t,
          read-write_file tmp bytes disk,
          read-write_file path bytes (remove_file tmp (write_file tmp bytes disk)),
        )
        refl

  -- Where no call fails: the first request for the thumbnail of an image of the user is answered
  -- with the encoded picture, filled to the size that was asked for, and leaves exactly these bytes
  -- at the path of the thumbnail on the disk, where there was no file; the same request after it is
  -- answered with the same bytes and changes nothing; the tables stay as they were.
  pub thumb_made_once :
      (db : Database) (disk : Disk) (row : FileRow) (bytes : List ℕ)
      → find (is_photo id user.id) db.files ≡ some row
      → read_file path disk ≡ none
      → thumbnail images
          (read_file (abs env.storage_root row.storage_path) disk)
          (size_of (atoi size_text))
        ≡ some bytes
      → let (first, w1) =
          thumb_handler images env (some user) id size_text (calm db disk uuids now) in
        let (second, w2) = thumb_handler images env (some user) id size_text w1 in
        (first ≡ stop (stream (codes "image/jpeg") (length bytes) none bytes))
        × (second ≡ first)
        × (w2 ≡ w1)
        × (w1.db ≡ db)
        × (read_file path w1.disk ≡ some bytes)
  thumb_made_once db disk row bytes h k t =
      let there : read_file path (stored bytes disk) ≡ some bytes =
        read-write_file path bytes (remove_file tmp (write_file tmp bytes disk)) in
      rw (made_calm db disk row bytes h k t, cached_calm db (stored bytes disk) row bytes h there)
        (refl, refl, refl, refl, there)

  find-narrow :
      (rows : List FileRow) (row : FileRow)
      → find (is_file id user.id) rows ≡ some row
      → row.is_image ≡ true
      → find (is_photo id user.id) rows ≡ some row
  find-narrow [] row h e = absurd (cc h)
  find-narrow (r ∷ rows) row h e = elim (Bool-cases (is_file id user.id r)) [
    | inl f ↦ let same : r ≡ row = cc (rw f at h) in rw (f, same, e) refl
    | inr f ↦ rw f (find-narrow rows row (rw f at h) e)
  ]

  -- Where no call fails, and the thumbnail of an image of the user has been made: deleting the image
  -- is answered with 204, and its thumbnail is sent after it as before.
  pub deleted_photo_still_served :
      (db : Database) (disk : Disk) (row : FileRow) (bytes : List ℕ)
      → find (is_file id user.id) db.files ≡ some row
      → row.is_image ≡ true
      → read_file path disk ≡ some bytes
      → abs env.storage_root row.storage_path ≢ path
      → let (deleted, w1) = delete_handler env (some user) id (calm db disk uuids now) in
        (deleted ≡ stop (bare 204))
        × ((thumb_handler images env (some user) id size_text w1).0
            ≡ stop (stream (codes "image/jpeg") (length bytes) none bytes))
  deleted_photo_still_served db disk row bytes h image k other =
      let source : Text = abs env.storage_root row.storage_path in
      let db' = record db { files = update (is_file id user.id) (mark_deleted now) db.files } in
      let owned = find_holds (is_file id user.id) db.files h in
      let marked : find (is_file id user.id) db'.files ≡ some (mark_deleted now row) = rw owned at (
        find-update (is_file id user.id) (is_file id user.id) (mark_deleted now) db.files
          (λ y. refl) h) in
      let there : read_file path (remove_file source disk) ≡ some bytes =
        read-remove_other path source disk (λ q. other (sym q)) ∙ k in
      rw
        (
          delete_calm env user id uuids now db disk row h,
          cached_calm db' (remove_file source disk) (mark_deleted now row) bytes
              (find-narrow db'.files (mark_deleted now row) marked image) there,
        )
        (refl, refl)
