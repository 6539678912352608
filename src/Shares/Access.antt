-- ===== src/Shares/Access.antt =====
-- The public access to share links, without authentication, of internal/shares/shares.go.
use my_personal_cloud.Prelude.{
  ◌+◌, ◌==◌, Bool, not, ◌&&◌, [], map, Option, none, some, Text, codes, ltb, leb, length, find,
  filter, if◌then◌else◌,
}
use my_personal_cloud.Sql.{order_by, nocase_before}
use my_personal_cloud.World.{
  Env, FileRow, FolderRow, ShareRow, Handler, Endpoint, error, json, stream, ◌>>=◌, ◌>>◌, pure,
  reply, require, or_reply, clock, exec, fetch, scan_some,
}
use my_personal_cloud.Storage.{open_file}
use my_personal_cloud.Files.Names.{folder_full_path}
use my_personal_cloud.Files.Api.{is_active}
use my_personal_cloud.Shares.{
  ShareBody, PublicFile, PublicFolder, shared_file, shared_folder, update_shares,
}

abbrev pub public_file : FileRow → PublicFile
public_file r = record {
  id = r.id;
  name = r.name;
  mime_type = r.mime_type;
  size_bytes = r.size_bytes;
  is_image = r.is_image;
}

abbrev pub public_folder : FolderRow → PublicFolder
public_folder r = record { id = r.id; name = r.name }

-- `resolveShare`; each of its callers answers its errors with 404. The row stands for `shareInfo`.
unfoldable pub resolve_share : Text → Handler ShareBody ShareRow
resolve_share token = do
  row ← fetch (λ db. find (λ s. s.token == token) db.share_links) (error 404 "lookup share")
  s ← or_reply row (error 404 "not found")
  require s.is_active (error 404 "share has been revoked")
  now ← clock
  require (not (ltb s.expires_at now)) (error 404 "share has expired")
  require (not (ltb 0 s.max_views && leb s.max_views s.current_views))
      (error 404 "share has reached maximum views")
  pure s

abbrev pub one_view_more : ShareRow → ShareRow
one_view_more s = record s { current_views = s.current_views + 1 }

-- `incrementViews`, whose error is ignored.
unfoldable pub increment_views : Text → Handler ShareBody (Unit {0})
increment_views id = exec (update_shares (λ s. s.id == id) one_view_more) >>= λ _. pure tt

unfoldable pub public_file_handler : Text → Endpoint ShareBody
public_file_handler token = do
  s ← resolve_share token
  file_id ← or_reply s.file_id (error 400 "this share points to a folder, not a file")
  row ← fetch (λ db. find (λ r. r.id == file_id) db.files) (error 500 "lookup failed")
  f ← or_reply row (error 404 "file not found")
  increment_views s.id
  reply (json 200 (shared_file (public_file f) s.id))

unfoldable pub public_folder_handler : Text → Endpoint ShareBody
public_folder_handler token = do
  s ← resolve_share token
  folder_id ← or_reply s.folder_id (error 400 "this share points to a file, not a folder")
  row ← fetch (λ db. find (λ r. r.id == folder_id) db.folders) (error 500 "lookup failed")
  top ← or_reply row (error 404 "folder not found")
  let full = folder_full_path top.parent_path top.name
  folder_rows ←
      fetch
        (λ db.
          order_by (λ a b. nocase_before a.name b.name)
            (filter (λ r. r.parent_path == full) db.folders))
        (error 500 "list folders failed")
  folders ← scan_some folder_rows
  file_rows ←
      fetch
        (λ db.
          order_by (λ a b. nocase_before a.name b.name)
            (filter (λ r. r.parent_path == full && is_active r) db.files))
        (error 500 "list files failed")
  files ← scan_some file_rows
  increment_views s.id
  reply (json 200 (shared_folder top.name (map public_folder folders) (map public_file files) s.id))

-- `streamSharedFile`, for a request without a range or a condition: `http.ServeContent` then sends
-- the whole file and sets the length to its real one.
unfoldable pub stream_shared_file : Env → Text → ShareRow → Bool → Endpoint ShareBody
stream_shared_file env file_id s preview = do
  row ← fetch (λ db. find (λ r. r.id == file_id) db.files) (error 500 "lookup failed")
  f ← or_reply row (error 404 "file not found")
  increment_views s.id
  again ← fetch (λ db. find (λ r. r.id == file_id) db.files) (error 500 "storage lookup failed")
  stored ← or_reply again (error 500 "storage lookup failed")
  opened ← open_file env stored.storage_path
  bytes ← or_reply opened (error 500 "open failed")
  reply (stream f.mime_type (length bytes) (if preview then some (codes "inline") else none) bytes)

-- The query parameters of a public request, "" where absent.
pub record ShareQuery : Type 0 where
  pub content : Text
  pub file_id : Text
  pub preview : Text

-- The part of `PublicShareRouter` behind the check of the link.
unfoldable pub route_share :
    Env → Text → ShareQuery → ShareRow → Option Text → Option Text → Endpoint ShareBody
route_share env token q s (some file_id) folder_id =
    if q.content == codes "1"
    then stream_shared_file env file_id s (q.preview == codes "1")
    else elim folder_id [
      | none ↦ public_file_handler token
      | some _ ↦
          if not (q.file_id == [])
          then stream_shared_file env q.file_id s (q.preview == codes "1")
          else public_file_handler token
    ]
route_share env token q s none (some folder_id) =
    if q.content == codes "1"
    then reply (error 400 "folder shares use ?file_id=X to stream a file")
    else if not (q.file_id == [])
    then stream_shared_file env q.file_id s (q.preview == codes "1")
    else public_folder_handler token
route_share env token q s none none =
    if q.content == codes "1"
    then reply (error 400 "folder shares use ?file_id=X to stream a file")
    else reply (error 500 "invalid share")

unfoldable pub public_share_router : Env → Text → ShareQuery → Endpoint ShareBody
public_share_router env token q = do
  s ← resolve_share token
  route_share env token q s s.file_id s.folder_id
