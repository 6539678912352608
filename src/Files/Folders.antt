-- ===== src/Files/Folders.antt =====
-- CreateFolderHandler, PatchFolderHandler and DeleteFolderHandler of internal/files/files.go.
pub mod Moves
pub mod Atomic
use my_personal_cloud.Prelude.{
  ℕ, ◌==◌, not, ◌&&◌, ◌||◌, [], map, Option, Text, find, filter, if◌then◌else◌,
}
use my_personal_cloud.World.{
  Env, Database, FileRow, FolderRow, Handler, Endpoint, bare, error, json, ◌>>=◌, ◌>>◌, pure, reply,
  require, or_reply, clock, new_uuid, query, execute, fetch, scan_some, begin, transact, commit,
}
use my_personal_cloud.Auth.{User, authenticated}
use my_personal_cloud.Files.Names.{normalize_parent, sanitize_filename, folder_full_path}
use my_personal_cloud.Files.Api.{
  Body, FolderBody, PatchBody, folder, folder_view, is_folder, folder_owned_by, owned_by,
  folder_named, is_inside, moved_path, insert_folder, update_files, update_folders, delete_folders,
}
use my_personal_cloud.Files.Content.{refuse_duplicate}
use my_personal_cloud.Files.Changes.{
  is_given, patched_name, patched_parent, mark_deleted, delete_all,
}

unfoldable pub create_folder_handler : Env → Option User → Option FolderBody → Endpoint Body
create_folder_handler env user body = do
  u ← authenticated user
  b ← or_reply body (error 400 "invalid JSON")
  let name = sanitize_filename b.name
  require (not (name == [])) (error 400 "invalid folder name")
  let parent = normalize_parent b.parent_path
  existing ← query (λ db. find (folder_named u.id parent name) db.folders)
  refuse_duplicate "A folder with this name already exists in the target path"
      (λ (r : FolderRow). r.id) existing
  id ← new_uuid env
  now ← clock
  let row : FolderRow = record {
    id = id;
    user_id = u.id;
    name = name;
    parent_path = parent;
    created_at = now;
  }
  execute (insert_folder row) (error 500 "create folder failed")
  reply (json 201 (folder (folder_view row)))

abbrev pub rename_folder : Text → Text → FolderRow → FolderRow
rename_folder name parent r = record r { name = name; parent_path = parent }

abbrev pub move_file : Text → Text → FileRow → FileRow
move_file old_full new_full r = record r {
  parent_path = moved_path old_full new_full r.parent_path;
}

abbrev pub move_folder : Text → Text → FolderRow → FolderRow
move_folder old_full new_full r = record r {
  parent_path = moved_path old_full new_full r.parent_path;
}

-- The two statements that move what is in a folder, when its full path changes.
unfoldable pub cascade : Database → ℕ → Text → Text → Handler Body (Unit {0})
cascade saved user_id old_full new_full = if old_full == new_full then pure tt else do
  transact saved
      (update_files (λ r. owned_by user_id r && is_inside old_full r.parent_path)
        (move_file old_full new_full))
      (error 500 "cascade files failed")
  transact saved
      (update_folders (λ r. folder_owned_by user_id r && is_inside old_full r.parent_path)
        (move_folder old_full new_full))
      (error 500 "cascade folders failed")
  pure tt

unfoldable pub patch_folder_handler : Option User → Text → Option PatchBody → Endpoint Body
patch_folder_handler user id body = do
  u ← authenticated user
  b ← or_reply body (error 400 "invalid JSON")
  require (is_given b.name || is_given b.parent_path)
      (error 400 "provide at least name or parent_path")
  row ← fetch (λ db. find (is_folder id u.id) db.folders) (error 500 "lookup failed")
  current ← or_reply row (error 404 "folder not found")
  name ← patched_name current.name b.name "invalid folder name"
  let parent = patched_parent current.parent_path b.parent_path
  saved ← begin (error 500 "begin tx failed")
  transact saved (update_folders (is_folder id u.id) (rename_folder name parent))
      (error 500 "update folder failed")
  cascade saved u.id (folder_full_path current.parent_path current.name)
      (folder_full_path parent name)
  commit saved (error 500 "commit failed")
  reply (json 200 (folder (folder_view (rename_folder name parent current))))

unfoldable pub delete_folder_handler : Env → Option User → Text → Endpoint Body
delete_folder_handler env user id = do
  u ← authenticated user
  row ← fetch (λ db. find (is_folder id u.id) db.folders) (error 500 "lookup failed")
  current ← or_reply row (error 404 "folder not found")
  let full = folder_full_path current.parent_path current.name
  rows ←
      fetch
        (λ db.
          map (λ (r : FileRow). r.storage_path)
            (filter (λ r. owned_by u.id r && is_inside full r.parent_path) db.files))
        (error 500 "list descendants failed")
  paths ← scan_some rows
  now ← clock
  saved ← begin (error 500 "begin tx failed")
  transact saved
      (update_files (λ r. owned_by u.id r && is_inside full r.parent_path) (mark_deleted now))
      (error 500 "delete descendant files failed")
  transact saved (delete_folders (λ r. folder_owned_by u.id r && is_inside full r.parent_path))
      (error 500 "delete descendant folders failed")
  transact saved (delete_folders (is_folder id u.id)) (error 500 "delete folder failed")
  commit saved (error 500 "commit failed")
  delete_all env paths
  reply (bare 204)
