-- ===== src/Files/Service/Needs.antt =====
-- Which statements and which changes of the disk the handler of a request may run.
use my_personal_cloud.Prelude.{ℕ, ◌≡◌, ◌⊎◌, not, ◌&&◌, some, Text, find, true, All}
use my_personal_cloud.Storage.Keeps.{Erases, Accepts}
use my_personal_cloud.World.{Disk, Env, Database, FileRow, FolderRow}
use my_personal_cloud.World.Keeps.{Step}
use my_personal_cloud.Files.Names.{folder_full_path}
use my_personal_cloud.Files.Names.Paths.{IsFolderPath}
use my_personal_cloud.Files.Names.Sanitize.{IsFileName}
use my_personal_cloud.Files.Api.{
  is_file, is_folder, is_active, owned_by, folder_owned_by, trashed_by, is_inside, insert_file,
  insert_folder, update_files, update_folders, delete_files, delete_folders,
}
use my_personal_cloud.Files.Changes.{rename, mark_deleted, mark_restored}
use my_personal_cloud.Files.Folders.{rename_folder, move_file, move_folder}
use my_personal_cloud.Files.Service.{
  Request, list, search_names, upload, download, patch_file, restore, create_folder, patch_folder,
  delete_folder, trash, empty_trash,
}

-- A value that is kept from before, or is a new one that meets `G`.
abbrev pub OldOr : (Text → Type 0) → Text → Text → Type 0
OldOr G old new = (new ≡ old) ⊎ G new

module _ (u : ℕ) (P : Database → Type 0) where
  -- The statements that move the contents of a folder.
  abbrev pub CascadeNeeds : Text → Text → Type 0
  CascadeNeeds old_full new_full =
      Step P (
        update_files (λ r. owned_by u r && is_inside old_full r.parent_path)
          (move_file old_full new_full))
      × Step P (
          update_folders (λ r. folder_owned_by u r && is_inside old_full r.parent_path)
            (move_folder old_full new_full))

  abbrev pub Needs : Request → Type 0
  Needs (list path limit offset) = Unit
  Needs (search_names q limit offset) = Unit
  Needs (upload form) =
      (r : FileRow)
      → r.user_id ≡ u
      → IsFileName r.name
      → IsFolderPath r.parent_path
      → Step P (insert_file r)
  Needs (download id inline) = Unit
  Needs (patch_file id body) =
      (db : Database) (current : FileRow) (name parent : Text)
      → P db
      → find (λ r. is_file id u r && is_active r) db.files ≡ some current
      → OldOr IsFileName current.name name
      → OldOr IsFolderPath current.parent_path parent
      → Step P (update_files (is_file id u) (rename name parent))
  Needs (Request.delete_file id) =
      (now : ℕ) → Step P (update_files (is_file id u) (mark_deleted now))
  Needs (restore id) =
      Step P (update_files (λ r. is_file id u r && not (is_active r)) mark_restored)
  Needs (create_folder body) =
      (r : FolderRow)
      → r.user_id ≡ u
      → IsFileName r.name
      → IsFolderPath r.parent_path
      → Step P (insert_folder r)
  Needs (patch_folder id body) =
      (db : Database) (current : FolderRow) (name parent : Text)
      → P db
      → find (is_folder id u) db.folders ≡ some current
      → OldOr IsFileName current.name name
      → OldOr IsFolderPath current.parent_path parent
      → Step P (update_folders (is_folder id u) (rename_folder name parent))
        × CascadeNeeds (folder_full_path current.parent_path current.name)
            (folder_full_path parent name)
  Needs (delete_folder id) =
      (full : Text) (now : ℕ)
      → Step P (update_files (λ r. owned_by u r && is_inside full r.parent_path) (mark_deleted now))
        × Step P (delete_folders (λ r. folder_owned_by u r && is_inside full r.parent_path))
        × Step P (delete_folders (is_folder id u))
  Needs (trash limit offset) = Unit
  Needs empty_trash = Step P (delete_files (trashed_by u))

  -- The rows of the user have storage paths that may be removed.
  abbrev pub Owns : Env → (Disk → Type 0) → Type 0
  Owns env D =
      (db : Database) → P db → All (λ r. owned_by u r ≡ true → Erases env D r.storage_path) db.files

  -- What the handler of a request may do to the disk.
  abbrev pub StoreNeeds : Env → (Disk → Type 0) → Request → Type 0
  StoreNeeds env D (list path limit offset) = Unit
  StoreNeeds env D (search_names q limit offset) = Unit
  StoreNeeds env D (upload form) = Accepts env D u
  StoreNeeds env D (download id inline) = Unit
  StoreNeeds env D (patch_file id body) = Unit
  StoreNeeds env D (Request.delete_file id) = Owns env D
  StoreNeeds env D (restore id) = Unit
  StoreNeeds env D (create_folder body) = Unit
  StoreNeeds env D (patch_folder id body) = Unit
  StoreNeeds env D (delete_folder id) = Owns env D
  StoreNeeds env D (trash limit offset) = Unit
  StoreNeeds env D empty_trash = Owns env D
