-- ===== src/Files/Content.antt =====
-- UploadHandler and DownloadHandler of internal/files/files.go, with `lookup`, and the part of
-- internal/mime/mime.go that they use.
pub mod Roundtrip
use my_personal_cloud.Prelude.{
  ℕ, ◌++◌, ◌∷◌, ◌==◌, Bool, not, List, [], map, Option, none, some, Text, String, codes, leb, take,
  has_prefix, find, if◌then◌else◌,
}
use my_personal_cloud.Sql.{lower}
use my_personal_cloud.World.{
  Env, FileRow, Handler, Endpoint, error, json, stream, ◌>>=◌, ◌>>◌, pure, reply, require, or_reply,
  clock, new_uuid, query, exec, fetch,
}
use my_personal_cloud.Auth.{User, authenticated}
use my_personal_cloud.Storage.{save, open_file, delete_file}
use my_personal_cloud.Files.Names.{normalize_parent, sanitize_filename}
use my_personal_cloud.Files.Api.{
  Body, UploadForm, conflict, file, file_view, is_file, active_named, insert_file,
}

-- `mime.IsImage`; content types are ASCII.
unfoldable pub is_image_type : Text → Bool
is_image_type mime = has_prefix (map lower mime) (codes "image/")

-- `DetectFromBytes` on the first 512 bytes, and the fallback of the handler.
unfoldable pub sniff : Env → List ℕ → Text
sniff env content =
    let detected = env.detect_content_type (take 512 content) in
    if detected == [] then codes "application/octet-stream" else detected

-- What a duplicate check does with its answer: a row is a conflict, and an error is only logged.
unfoldable pub refuse_duplicate :
    {R : Type 0} → String → (R → Text) → Option (Option R) → Handler Body (Unit {0})
refuse_duplicate message id_of none = pure tt
refuse_duplicate message id_of (some none) = pure tt
refuse_duplicate message id_of (some (some r)) = reply (json 409 (conflict message (id_of r)))

abbrev pub file_conflict : String
file_conflict = "A file with this name already exists in the target folder"

abbrev pub uploaded_row : ℕ → Text → Text → Text → Text → ℕ → Text → ℕ → FileRow
uploaded_row user_id name parent rel mime size id now = record {
  id = id;
  user_id = user_id;
  name = name;
  parent_path = parent;
  storage_path = rel;
  mime_type = mime;
  size_bytes = size;
  is_image = is_image_type mime;
  created_at = now;
  deleted_at = none;
}

-- When the row cannot be inserted the stored contents are removed again.
unfoldable pub finish_upload : Env → FileRow → Option ℕ → Endpoint Body
finish_upload env r none = do
  delete_file env r.storage_path
  reply (error 500 "insert metadata failed")
finish_upload env r (some n) = reply (json 201 (file (file_view r)))

unfoldable pub upload_handler : Env → Option User → Option UploadForm → Endpoint Body
upload_handler env user form = do
  u ← authenticated user
  f ← or_reply form (error 400 "invalid multipart payload")
  require (leb f.body_bytes env.max_upload_bytes) (error 400 "invalid multipart payload")
  let parent = normalize_parent f.path
  part ← or_reply f.file (error 400 "missing 'file' field")
  let name = sanitize_filename part.0
  require (not (name == [])) (error 400 "invalid filename")
  let mime = sniff env part.1
  existing ← query (λ db. find (active_named u.id parent name) db.files)
  refuse_duplicate file_conflict (λ (r : FileRow). r.id) existing
  stored ← save env u.id part.1
  kept ← or_reply stored (error 500 "save failed")
  id ← new_uuid env
  now ← clock
  let row = uploaded_row u.id name parent kept.0 mime kept.1 id now
  inserted ← exec (insert_file row)
  finish_upload env row inserted

-- `Service.lookup` and `respondLookupError`. Files in the trash are found too.
unfoldable pub lookup : ℕ → Text → Handler Body FileRow
lookup user_id id = do
  row ← fetch (λ db. find (is_file id user_id) db.files) (error 500 "lookup failed")
  or_reply row (error 404 "file not found")

abbrev pub attachment : Text → Text
attachment name = codes "attachment; filename=" ++ 34 ∷ name ++ 34 ∷ []

unfoldable pub download_handler : Env → Option User → Text → Text → Endpoint Body
download_handler env user id inline = do
  u ← authenticated user
  meta ← lookup u.id id
  opened ← open_file env meta.storage_path
  bytes ← or_reply opened (error 500 "open failed")
  reply (
      stream meta.mime_type meta.size_bytes
        (if inline == codes "1" then none else some (attachment meta.name)) bytes)
