-- ===== src/Photos.antt =====
-- The gallery, internal/photos/photos.go. The decoding, scaling and encoding of images are
-- parameters. A handler runs alone, so the mutex of generateThumb, which only keeps two requests
-- from making one thumbnail at the same time, is always free.
pub mod Service
pub mod Thumbs
use my_personal_cloud.Prelude.{
  ℕ, ◌++◌, ◌==◌, Bool, true, false, not, ◌&&◌, List, [], ◌∷◌, map, Option, none, some, Text, codes,
  ltb, leb, filter, find, length, if◌then◌else◌,
}
use my_personal_cloud.GoPath.{join_path}
use my_personal_cloud.Decimal.{decimal, atoi}
use my_personal_cloud.Sql.{page, order_by, count}
use my_personal_cloud.World.{
  Env, FileRow, World, Disk, Handler, Endpoint, next, error, json, stream, ◌>>=◌, ◌>>◌, pure, reply,
  or_reply, query, fetch, scan_all, next_fault, used,
}
use my_personal_cloud.Auth.{User, authenticated}
use my_personal_cloud.Storage.{
  read_file, write_file, remove_file, attempt, change_disk, read_disk, given, open_file,
}
use my_personal_cloud.Files.Api.{is_file, is_active, owned_by, parse_pagination}
use my_personal_cloud.Files.Listing.{or_zero}

pub record Photo : Type 0 where
  pub id : Text
  pub name : Text
  pub mime_type : Text
  pub size_bytes : ℕ
  pub created_at : ℕ

-- The object that ListHandler sends: photos, total, limit and offset.
pub data PhotoBody : Type 0 where
  photos : List Photo → ℕ → ℕ → ℕ → PhotoBody

-- `image.Decode`, `imaging.Fill` to a square, and `imaging.Encode` as JPEG, of pictures `P`.
pub record Images (P : Type 0) : Type 0 where
  pub decode : List ℕ → Option P
  pub fill : P → ℕ → P
  pub encode : P → Option (List ℕ)

abbrev pub photo_view : FileRow → Photo
photo_view r = record {
  id = r.id;
  name = r.name;
  mime_type = r.mime_type;
  size_bytes = r.size_bytes;
  created_at = r.created_at;
}

-- `user_id = ? AND is_image = 1 AND deleted_at IS NULL`
abbrev pub shown_photo : ℕ → FileRow → Bool
shown_photo u r = owned_by u r && r.is_image && is_active r

-- `id = ? AND user_id = ? AND is_image = 1`
abbrev pub is_photo : Text → ℕ → FileRow → Bool
is_photo id u r = is_file id u r && r.is_image

abbrev pub newest_first : FileRow → FileRow → Bool
newest_first a b = ltb b.created_at a.created_at

-- The paging is that of parsePagination, written out.
unfoldable pub list_handler : Option User → Text → Text → Endpoint PhotoBody
list_handler user limit offset = do
  u ← authenticated user
  let p = parse_pagination limit offset
  rows ←
      fetch (λ db. page p.0 p.1 (order_by newest_first (filter (shown_photo u.id) db.files)))
        (error 500 "list photos failed")
  scanned ← scan_all rows (error 500 "scan failed")
  total ← query (λ db. count (shown_photo u.id) db.files)
  reply (json 200 (photos (map photo_view scanned) (or_zero total) p.0 p.1))

abbrev pub size_of : Option (Bool × ℕ) → ℕ
size_of (some (false, n)) = if ltb 0 n && leb n 1024 then n else 256
size_of _ = 256

abbrev pub thumbs_dir : Env → Text
thumbs_dir env = join_path env.storage_root (codes "_thumbs")

abbrev pub thumb_path : Env → Text → ℕ → Text
thumb_path env id size =
    join_path (thumbs_dir env) (id ++ (codes "_" ++ (decimal size ++ codes ".jpg")))

abbrev pub is_there : Option (List ℕ) → Bool
is_there none = false
is_there (some bytes) = true

abbrev pub moved_file : Text → Text → Option (List ℕ) → Disk → Disk
moved_file from to none disk = disk
moved_file from to (some bytes) disk = write_file to bytes (remove_file from disk)

module _ {P : Type 0} (images : Images P) where
  abbrev pub encoded : Option P → ℕ → Option (List ℕ)
  encoded none size = none
  encoded (some picture) size = images.encode (images.fill picture size)

  -- The thumbnail of the contents of an image.
  abbrev pub thumbnail : Option (List ℕ) → ℕ → Option (List ℕ)
  thumbnail none size = none
  thumbnail (some content) size = encoded (images.decode content) size

module _ {B : Type 0} where
  -- `os.Stat`: whether the file is there, or `none` for another error.
  unfoldable pub stat : Text → Handler B (Option Bool)
  stat path w =
      (next (if next_fault w.faults then none else some (is_there (read_file path w.disk))), used w)

  -- `os.Rename` of the written file; whether it succeeds.
  unfoldable pub rename_thumb : Text → Text → Bool → Handler B Bool
  rename_thumb tmp path false = pure false
  rename_thumb tmp path true = do
    renamed ← attempt
    change_disk (λ disk. if renamed then moved_file tmp path (read_file tmp disk) disk else disk)
    pure renamed

  -- `os.WriteFile` of the bytes beside the path, and `os.Rename` to it; whether both succeed.
  unfoldable pub store_thumb : Text → List ℕ → Handler B Bool
  store_thumb path bytes = do
    let tmp = path ++ codes ".tmp"
    written ← attempt
    change_disk (λ disk. if written then write_file tmp bytes disk else disk)
    rename_thumb tmp path written

  abbrev pub store_made : Text → Option (List ℕ) → Handler B Bool
  store_made path none = pure false
  store_made path (some bytes) = store_thumb path bytes

  module _ {P : Type 0} (images : Images P) where
    abbrev pub make_thumb : Env → Text → Text → ℕ → Option Bool → Handler B Bool
    make_thumb env source path size (some true) = pure true
    make_thumb env source path size _ =
        open_file env source >>= λ content. store_made path (thumbnail images content size)

    -- `generateThumb`: whether it succeeds.
    unfoldable pub generate_thumb : Env → Text → Text → ℕ → Handler B Bool
    generate_thumb env source path size =
        stat path >>= λ there. make_thumb env source path size there

    -- The thumbnail is made where the file is not there.
    abbrev pub ensure_thumb : Env → Text → Text → ℕ → Option Bool → Handler B Bool
    ensure_thumb env source path size (some false) = generate_thumb env source path size
    ensure_thumb env source path size _ = pure true

-- `lookupImage` and the replies to what it gives.
unfoldable pub lookup_image : ℕ → Text → Handler PhotoBody FileRow
lookup_image user_id id = do
  row ← fetch (λ db. find (is_photo id user_id) db.files) (error 500 "lookup failed")
  or_reply row (error 404 "photo not found")

abbrev pub confirmed : Bool → Option (Unit {0})
confirmed true = some tt
confirmed false = none

module _ {P : Type 0} (images : Images P) (env : Env) where
  unfoldable pub thumb_handler : Option User → Text → Text → Endpoint PhotoBody
  thumb_handler user id size_text = do
    u ← authenticated user
    let size = size_of (atoi size_text)
    row ← lookup_image u.id id
    let path = thumb_path env id size
    there ← stat path
    made ← ensure_thumb images env row.storage_path path size there
    ok ← or_reply (confirmed made) (error 500 "thumb generation failed")
    opened ← attempt
    found ← given opened (read_disk path)
    bytes ← or_reply found (error 500 "open thumb failed")
    reply (stream (codes "image/jpeg") (length bytes) none bytes)

unfoldable pub full_handler : Env → Option User → Text → Endpoint PhotoBody
full_handler env user id = do
  u ← authenticated user
  row ← lookup_image u.id id
  opened ← open_file env row.storage_path
  bytes ← or_reply opened (error 500 "open failed")
  reply (stream row.mime_type row.size_bytes none bytes)
