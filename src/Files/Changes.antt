-- ===== src/Files/Changes.antt =====
-- PatchFileHandler, DeleteHandler, RestoreHandler and EmptyTrashHandler of
-- internal/files/files.go.
pub mod Contents
pub mod Emptying
use my_personal_cloud.Prelude.{
  ℕ, ◌==◌, Bool, true, false, not, ◌&&◌, ◌||◌, List, [], ◌∷◌, map, Option, none, some, Text, String,
  nat_eq, find, filter, if◌then◌else◌,
}
use my_personal_cloud.World.{
  Env, FileRow, Handler, Endpoint, bare, error, json, ◌>>=◌, ◌>>◌, pure, reply, require, or_reply,
  clock, query, execute, fetch, scan_some,
}
use my_personal_cloud.Auth.{User, authenticated}
use my_personal_cloud.Storage.{delete_file}
use my_personal_cloud.Files.Names.{normalize_parent, sanitize_filename}
use my_personal_cloud.Files.Api.{
  Body, PatchBody, file, file_view, is_file, is_active, active_named, trashed_by, update_files,
  delete_files,
}
use my_personal_cloud.Files.Content.{refuse_duplicate, file_conflict, lookup}

abbrev pub is_given : Option Text → Bool
is_given none = false
is_given (some t) = true

-- The new name of a patch, or the current one where the patch has none.
unfoldable pub patched_name : Text → Option Text → String → Handler Body Text
patched_name current none message = pure current
patched_name current (some name) message = do
  let n = sanitize_filename name
  require (not (n == [])) (error 400 message)
  pure n

abbrev pub patched_parent : Text → Option Text → Text
patched_parent current none = current
patched_parent current (some parent) = normalize_parent parent

-- The duplicate check of a patch; nothing is looked up where neither field changes.
unfoldable pub check_moved : ℕ → Text → FileRow → Text → Text → Handler Body (Unit {0})
check_moved user_id id current name parent =
    if not (name == current.name) || not (parent == current.parent_path)
    then query (λ db. find (λ r. active_named user_id parent name r && not (r.id == id)) db.files)
      >>= refuse_duplicate file_conflict (λ (r : FileRow). r.id)
    else pure tt

abbrev pub rename : Text → Text → FileRow → FileRow
rename name parent r = record r { name = name; parent_path = parent }

unfoldable pub patch_file_handler : Option User → Text → Option PatchBody → Endpoint Body
patch_file_handler user id body = do
  u ← authenticated user
  b ← or_reply body (error 400 "invalid JSON")
  require (is_given b.name || is_given b.parent_path)
      (error 400 "provide at least name or parent_path")
  row ←
      fetch (λ db. find (λ r. is_file id u.id r && is_active r) db.files)
        (error 500 "lookup failed")
  current ← or_reply row (error 404 "file not found")
  name ← patched_name current.name b.name "invalid name"
  let parent = patched_parent current.parent_path b.parent_path
  check_moved u.id id current name parent
  execute (update_files (is_file id u.id) (rename name parent)) (error 500 "update failed")
  reply (json 200 (file (file_view (rename name parent current))))

abbrev pub mark_deleted : ℕ → FileRow → FileRow
mark_deleted now r = record r { deleted_at = some now }

abbrev pub mark_restored : FileRow → FileRow
mark_restored r = record r { deleted_at = none }

unfoldable pub delete_handler : Env → Option User → Text → Endpoint Body
delete_handler env user id = do
  u ← authenticated user
  meta ← lookup u.id id
  now ← clock
  execute (update_files (is_file id u.id) (mark_deleted now)) (error 500 "delete failed")
  delete_file env meta.storage_path
  reply (bare 204)

unfoldable pub restore_handler : Option User → Text → Endpoint Body
restore_handler user id = do
  u ← authenticated user
  rows ←
      execute (update_files (λ r. is_file id u.id r && not (is_active r)) mark_restored)
        (error 500 "restore failed")
  require (not (nat_eq rows 0)) (error 404 "file not found in trash")
  reply (bare 204)

-- The files of a list of storage paths are removed one by one.
unfoldable pub delete_all : Env → List Text → Handler Body (Unit {0})
delete_all env [] = pure tt
delete_all env (p ∷ ps) = delete_file env p >>= λ _. delete_all env ps

unfoldable pub empty_trash_handler : Env → Option User → Endpoint Body
empty_trash_handler env user = do
  u ← authenticated user
  rows ←
      fetch (λ db. map (λ (r : FileRow). r.storage_path) (filter (trashed_by u.id) db.files))
        (error 500 "empty trash failed")
  paths ← scan_some rows
  execute (delete_files (trashed_by u.id)) (error 500 "empty trash failed")
  delete_all env paths
  reply (bare 204)
