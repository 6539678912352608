-- ===== src/Files/Service/Isolation.antt =====
-- No request touches what belongs to another user.
use mathlib.Core.List.{append-nil}
use my_personal_cloud.Prelude.{
  ℕ, ◌≡◌, refl, Bool, true, not, ◌&&◌, [], ◌∷◌, some, Text, arith, filter, filter-append,
}
use my_personal_cloud.Sql.{update, delete}
use my_personal_cloud.Sql.Tables.{filter-update, filter-delete}
use my_personal_cloud.World.{FileRow, FolderRow, Database, World, Env}
use my_personal_cloud.World.Keeps.{Step, kept}
use my_personal_cloud.Auth.{User}
use my_personal_cloud.Files.Api.{
  owned_by, folder_owned_by, insert_file, insert_folder, update_files, update_folders, delete_files,
  delete_folders, is_file, is_folder, trashed_by, is_active,
}
use my_personal_cloud.Files.Changes.{rename, mark_deleted, mark_restored}
use my_personal_cloud.Files.Folders.{rename_folder, move_file, move_folder}
use my_personal_cloud.Files.Service.{
  Request, serve, list, search_names, upload, download, patch_file, restore, create_folder,
  patch_folder, delete_folder, trash, empty_trash,
}
use my_personal_cloud.Files.Service.Needs.{Needs}
use my_personal_cloud.Files.Service.Keeps.{serve-Keeps}
use my_personal_cloud.Files.Service.Spared.{IsForeign, serve_reads}
use my_personal_cloud.Storage.{read_file}

abbrev pub other_file : ℕ → FileRow → Bool
other_file u r = not (owned_by u r)

abbrev pub other_folder : ℕ → FolderRow → Bool
other_folder u r = not (folder_owned_by u r)

-- The accounts, and the rows of the files and folders of everybody but the user, are as before.
pub record RowsKept (u : ℕ) (before after : Database) : Type 0 where
  pub users : after.users ≡ before.users
  pub files : filter (other_file u) after.files ≡ filter (other_file u) before.files
  pub folders : filter (other_folder u) after.folders ≡ filter (other_folder u) before.folders

module _ (u : ℕ) (before : Database) where
  abbrev Kept : Database → Type 0
  Kept = RowsKept u before

  insert_file-Kept : (r : FileRow) → r.user_id ≡ u → Step Kept (insert_file r)
  unfolding insert_file
  insert_file-Kept r own db db' n k e = ground (
    arith,
    filter-append (other_file u) db.files (r ∷ []),
    append-nil (filter (other_file u) db.files),
  )

  insert_folder-Kept : (r : FolderRow) → r.user_id ≡ u → Step Kept (insert_folder r)
  unfolding insert_folder
  insert_folder-Kept r own db db' n k e = ground (
    arith,
    filter-append (other_folder u) db.folders (r ∷ []),
    append-nil (filter (other_folder u) db.folders),
  )

  update_files-Kept :
      (p : FileRow → Bool) (f : FileRow → FileRow)
      → ((r : FileRow) → p r ≡ true → (owned_by u r ≡ true) × ((f r).user_id ≡ r.user_id))
      → Step Kept (update_files p f)
  unfolding update_files
  update_files-Kept p f own db db' n k e =
      let same : filter (other_file u) (update p f db.files) ≡ filter (other_file u) db.files =
        filter-update (other_file u) p f db.files (λ r q. ground (arith, own r q)) in
      ground arith

  update_folders-Kept :
      (p : FolderRow → Bool) (f : FolderRow → FolderRow)
      → ((r : FolderRow) → p r ≡ true → (folder_owned_by u r ≡ true) × ((f r).user_id ≡ r.user_id))
      → Step Kept (update_folders p f)
  unfolding update_folders
  update_folders-Kept p f own db db' n k e =
      let same : filter (other_folder u) (update p f db.folders)
          ≡ filter (other_folder u) db.folders =
        filter-update (other_folder u) p f db.folders (λ r q. ground (arith, own r q)) in
      ground arith

  delete_files-Kept :
      (p : FileRow → Bool)
      → ((r : FileRow) → p r ≡ true → owned_by u r ≡ true)
      → Step Kept (delete_files p)
  unfolding delete_files
  delete_files-Kept p own db db' n k e =
      let same : filter (other_file u) (delete p db.files) ≡ filter (other_file u) db.files =
        filter-delete (other_file u) p db.files (λ r q. ground (arith, own r q)) in
      ground arith

  delete_folders-Kept :
      (p : FolderRow → Bool)
      → ((r : FolderRow) → p r ≡ true → folder_owned_by u r ≡ true)
      → Step Kept (delete_folders p)
  unfolding delete_folders
  delete_folders-Kept p own db db' n k e =
      let same : filter (other_folder u) (delete p db.folders)
          ≡ filter (other_folder u) db.folders =
        filter-delete (other_folder u) p db.folders (λ r q. ground (arith, own r q)) in
      ground arith

  Needs-Kept : (r : Request) → Needs u Kept r
  Needs-Kept (list path limit offset) = tt
  Needs-Kept (search_names q limit offset) = tt
  Needs-Kept (upload form) = λ r own _ _. insert_file-Kept r own
  Needs-Kept (download id inline) = tt
  Needs-Kept (patch_file id body) = λ _ _ name parent _ _ _ _.
      update_files-Kept (is_file id u) (rename name parent) (λ r q. ground arith)
  Needs-Kept (Request.delete_file id) =
      λ now. update_files-Kept (is_file id u) (mark_deleted now) (λ r q. ground arith)
  Needs-Kept (restore id) =
      update_files-Kept (λ r. is_file id u r && not (is_active r)) mark_restored
        (λ r q. ground arith)
  Needs-Kept (create_folder body) = λ r own _ _. insert_folder-Kept r own
  Needs-Kept (patch_folder id body) = λ _ _ name parent _ _ _ _. (
    update_folders-Kept (is_folder id u) (rename_folder name parent) (λ r q. ground arith),
    (
      update_files-Kept _ (move_file _ _) (λ r q. ground arith),
      update_folders-Kept _ (move_folder _ _) (λ r q. ground arith),
    ),
  )
  Needs-Kept (delete_folder id) = λ full now. (
    update_files-Kept _ (mark_deleted now) (λ r q. ground arith),
    delete_folders-Kept _ (λ r q. ground arith),
    delete_folders-Kept (is_folder id u) (λ r q. ground arith),
  )
  Needs-Kept (trash limit offset) = tt
  Needs-Kept empty_trash = delete_files-Kept (trashed_by u) (λ r q. ground arith)

-- The same, and what is stored at every path that is no place of the user's files or uploads.
pub record OthersKept (env : Env) (u : ℕ) (before after : World) : Type 0 where
  pub rows : RowsKept u before.db after.db
  pub contents :
      (path : Text)
      → IsForeign env u before.db path
      → read_file path after.disk ≡ read_file path before.disk

pub nothing-OthersKept : (env : Env) (u : ℕ) (w : World) → OthersKept env u w w
nothing-OthersKept env u w = record {
  rows = record { users = refl; files = refl; folders = refl };
  contents = λ path h. refl;
}

-- Whatever a user requests of the file service, and whichever calls of the database or the file
-- system fail: the accounts and the rows of the files and folders of all other users stay as they
-- are, and so does what is stored at every path at which no row of the user is stored and no upload
-- of the user is put.
pub serve-OthersKept :
    (env : Env) (user : User) (r : Request) (w : World)
    → OthersKept env user.id w (serve env (some user) r w).1
serve-OthersKept env user r w = record {
  rows =
      kept w (serve-Keeps user (RowsKept user.id w.db) env r (Needs-Kept user.id w.db r))
        (record { users = refl; files = refl; folders = refl });
  contents = λ path h. serve_reads env user r w path h;
}
