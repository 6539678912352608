-- ===== src/Tests/Photos.antt =====
-- Runs of the gallery, with pictures that are their bytes and a scaling that keeps some of them.
use my_personal_cloud.Prelude.{
  ℕ, ◌≡◌, refl, ◌==◌, has_prefix, eq_refl, true, false, List, [], ◌∷◌, none, some, codes, find,
  take,
}
use my_personal_cloud.GoPath.{
  join_path, clean, render, join, elements, split, resolve, step, step_up,
}
use my_personal_cloud.Decimal.{decimal, digits_from, atoi, digits_value}
use my_personal_cloud.World.{
  Database, Disk, FileRow, stop, bare, stream, ◌>>=◌, or_reply, fetch, query, reply, pure,
}
use my_personal_cloud.Auth.{authenticated}
use my_personal_cloud.Storage.{abs, read_file, attempt, read_disk, open_file}
use my_personal_cloud.Files.Api.{is_file}
use my_personal_cloud.Files.Changes.{delete_handler}
use my_personal_cloud.Files.Changes.Contents.{calm}
use my_personal_cloud.Photos.{
  Images, is_photo, thumb_path, thumb_handler, full_handler, lookup_image,
}
use my_personal_cloud.Photos.Service.{serve_photos, full, OwnPhoto, serve_photos-OwnPhoto}
use my_personal_cloud.Photos.Thumbs.{thumb_made_once, deleted_photo_still_served}
use my_personal_cloud.Tests.Data.{alice, env, notes, tables, disk}

abbrev images : Images (List ℕ)
images = record {
  decode = λ bytes. some bytes;
  fill = λ picture size. take 1 picture;
  encode = λ picture. some (255 ∷ picture);
}

abbrev picture : FileRow
picture = record notes { is_image = true; mime_type = codes "image/png" }

abbrev gallery : Database
gallery = record tables { files = picture ∷ [] }

picture_found : find (is_photo (codes "f1") 1) gallery.files ≡ some picture
unfolding ◌==◌
picture_found = refl

picture_found_too : find (is_file (codes "f1") 1) gallery.files ≡ some picture
unfolding ◌==◌
picture_found_too = refl

thumb_is : thumb_path env (codes "f1") 64 ≡ codes "/data/_thumbs/f1_64.jpg"
unfolding join_path clean render join elements split resolve step step_up decimal digits_from ◌==◌
thumb_is = refl

source_is : abs (codes "/data") (codes "1/x") ≡ codes "/data/1/x"
unfolding abs join_path clean render join elements split resolve step step_up has_prefix ◌==◌
source_is = refl

size_is : atoi (codes "64") ≡ some (false, 64)
unfolding atoi digits_value
size_is = refl

no_thumb : read_file (thumb_path env (codes "f1") 64) disk ≡ none
unfolding read_file ◌==◌
no_thumb = rw thumb_is refl

content_read : read_file (abs (codes "/data") (codes "1/x")) disk ≡ some (1 ∷ 2 ∷ [])
unfolding read_file ◌==◌
content_read = rw source_is refl

abbrev thumb_disk : Disk
thumb_disk = (thumb_path env (codes "f1") 64, 255 ∷ 1 ∷ []) ∷ disk

thumb_read : read_file (thumb_path env (codes "f1") 64) thumb_disk ≡ some (255 ∷ 1 ∷ [])
unfolding read_file
thumb_read = rw (eq_refl (thumb_path env (codes "f1") 64)) refl

thumb_made_once_example :
    let (first, w1) =
      thumb_handler images env (some alice) (codes "f1") (codes "64") (calm gallery disk 0 200) in
    let (second, w2) = thumb_handler images env (some alice) (codes "f1") (codes "64") w1 in
    (first ≡ stop (stream (codes "image/jpeg") 2 none (255 ∷ 1 ∷ [])))
    × (second ≡ first)
    × (w2 ≡ w1)
    × (w1.db ≡ gallery)
    × (read_file (thumb_path env (codes "f1") 64) w1.disk ≡ some (255 ∷ 1 ∷ []))
unfolding atoi digits_value
thumb_made_once_example =
    thumb_made_once images env alice (codes "f1") (codes "64") 0 200 gallery disk picture
      (255 ∷ 1 ∷ []) picture_found no_thumb (rw content_read refl)

deleted_photo_still_served_example :
    let (deleted, w1) =
      delete_handler env (some alice) (codes "f1") (calm gallery thumb_disk 0 200) in
    (deleted ≡ stop (bare 204))
    × ((thumb_handler images env (some alice) (codes "f1") (codes "64") w1).0
        ≡ stop (stream (codes "image/jpeg") 2 none (255 ∷ 1 ∷ [])))
unfolding atoi digits_value
deleted_photo_still_served_example =
    deleted_photo_still_served images env alice (codes "f1") (codes "64") 0 200 gallery thumb_disk
      picture (255 ∷ 1 ∷ []) picture_found_too refl thumb_read
      (rw (thumb_is, source_is) (λ e. cc e))

full_run :
    serve_photos images env (some alice) (full (codes "f1")) (calm gallery disk 0 200)
    ≡ (stop (stream (codes "image/png") 2 none (1 ∷ 2 ∷ [])), calm gallery disk 0 200)
unfolding serve_photos full_handler authenticated or_reply lookup_image fetch query open_file
    attempt read_disk pure reply ◌>>=◌ ◌==◌
full_run = rw content_read refl

serve_photos-OwnPhoto_example :
    OwnPhoto alice
      (codes "f1")
      gallery
      (stream (codes "image/png") 2 none (1 ∷ 2 ∷ []))
      gallery
      disk
serve_photos-OwnPhoto_example =
    serve_photos-OwnPhoto images env alice (full (codes "f1")) (calm gallery disk 0 200)
      (calm gallery disk 0 200) (stream (codes "image/png") 2 none (1 ∷ 2 ∷ [])) full_run
