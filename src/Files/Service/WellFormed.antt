-- ===== src/Files/Service/WellFormed.antt =====
-- The names and paths that the tables hold.
use my_personal_cloud.Prelude.{
  ℕ, ◌≡◌, Bool, true, false, not, ◌&&◌, [], ◌∷◌, some, Text, arith, All, All-append, All-filter,
  All-find, inl, inr,
}
use my_personal_cloud.Sql.Tables.{All-update}
use my_personal_cloud.World.{FileRow, FolderRow, Database, World, Env}
use my_personal_cloud.World.Keeps.{Step, kept}
use my_personal_cloud.Auth.{User}
use my_personal_cloud.Files.Names.Paths.{IsFolderPath}
use my_personal_cloud.Files.Names.Sanitize.{IsFileName}
use my_personal_cloud.Files.Api.{
  insert_file, insert_folder, update_files, delete_files, delete_folders, is_file, trashed_by,
  is_active,
}
use my_personal_cloud.Files.Changes.{rename, mark_deleted, mark_restored}
use my_personal_cloud.Files.Service.{
  Request, serve, list, search_names, upload, download, patch_file, restore, create_folder,
  patch_folder, delete_folder, trash, empty_trash,
}
use my_personal_cloud.Files.Service.Needs.{Needs, OldOr}
use my_personal_cloud.Files.Service.Keeps.{serve-Keeps}

abbrev pub HasGoodFile : FileRow → Type 0
HasGoodFile r = IsFileName r.name × IsFolderPath r.parent_path

abbrev pub HasGoodFolder : FolderRow → Type 0
HasGoodFolder r = IsFileName r.name × IsFolderPath r.parent_path

-- Every name is that of one entry of a directory, and every parent is the path of a folder.
pub record WellFormed (db : Database) : Type 0 where
  pub files : All HasGoodFile db.files
  pub folders : All HasGoodFolder db.folders

insert_file-WellFormed : (r : FileRow) → HasGoodFile r → Step WellFormed (insert_file r)
unfolding insert_file
insert_file-WellFormed r good db db' n k e =
    let files = All-append HasGoodFile db.files (r ∷ []) k.files (good, tt) in ground arith

insert_folder-WellFormed : (r : FolderRow) → HasGoodFolder r → Step WellFormed (insert_folder r)
unfolding insert_folder
insert_folder-WellFormed r good db db' n k e =
    let folders = All-append HasGoodFolder db.folders (r ∷ []) k.folders (good, tt) in ground arith

update_files-WellFormed :
    (p : FileRow → Bool) (f : FileRow → FileRow)
    → ((r : FileRow) → HasGoodFile r → p r ≡ true → HasGoodFile (f r))
    → Step WellFormed (update_files p f)
unfolding update_files
update_files-WellFormed p f good db db' n k e =
    let files = All-update HasGoodFile p f db.files good k.files in ground arith

delete_files-WellFormed : (p : FileRow → Bool) → Step WellFormed (delete_files p)
unfolding delete_files
delete_files-WellFormed p db db' n k e =
    let files = All-filter HasGoodFile (λ r. not (p r)) db.files k.files in ground arith

delete_folders-WellFormed : (p : FolderRow → Bool) → Step WellFormed (delete_folders p)
unfolding delete_folders
delete_folders-WellFormed p db db' n k e =
    let folders = All-filter HasGoodFolder (λ r. not (p r)) db.folders k.folders in ground arith

old_or_good : (G : Text → Type 0) (old new : Text) → G old → OldOr G old new → G new
old_or_good G old new h (inl e) = rw e h
old_or_good G old new h (inr k) = k

-- Whether the request changes a folder.
abbrev pub is_patch_folder : Request → Bool
is_patch_folder (patch_folder id body) = true
is_patch_folder _ = false

Needs-WellFormed : (u : ℕ) (r : Request) → is_patch_folder r ≡ false → Needs u WellFormed r
Needs-WellFormed u (list path limit offset) h = tt
Needs-WellFormed u (search_names q limit offset) h = tt
Needs-WellFormed u (upload form) h = λ r _ name parent. insert_file-WellFormed r (name, parent)
Needs-WellFormed u (download id inline) h = tt
Needs-WellFormed u (patch_file id body) h = λ db current name parent k found n p.
    let good = All-find HasGoodFile (λ r. is_file id u r && is_active r) db.files k.files found in
    update_files-WellFormed (is_file id u) (rename name parent) (λ r _ _. (
      old_or_good IsFileName current.name name good.0 n,
      old_or_good IsFolderPath current.parent_path parent good.1 p,
    ))
Needs-WellFormed u (Request.delete_file id) h =
    λ now. update_files-WellFormed (is_file id u) (mark_deleted now) (λ r g _. g)
Needs-WellFormed u (restore id) h =
    update_files-WellFormed (λ r. is_file id u r && not (is_active r)) mark_restored (λ r g _. g)
Needs-WellFormed u (create_folder body) h =
    λ r _ name parent. insert_folder-WellFormed r (name, parent)
Needs-WellFormed u (patch_folder id body) h = absurd (cc h)
Needs-WellFormed u (delete_folder id) h = λ full now. (
  update_files-WellFormed _ (mark_deleted now) (λ r g _. g),
  delete_folders-WellFormed _,
  delete_folders-WellFormed _,
)
Needs-WellFormed u (trash limit offset) h = tt
Needs-WellFormed u empty_trash h = delete_files-WellFormed (trashed_by u)

-- Every request but the change of a folder keeps the tables such that each file and folder has a
-- name that is one entry of a directory, without slash and backslash and neither "", "." nor
-- "..", and a parent that is the absolute path of a folder without such elements. This holds
-- whatever a client sends and whichever calls fail.
pub serve-WellFormed :
    (env : Env) (user : User) (r : Request) (w : World)
    → is_patch_folder r ≡ false
    → WellFormed w.db
    → WellFormed (serve env (some user) r w).1.db
serve-WellFormed env user r w h k =
    kept w (serve-Keeps user WellFormed env r (Needs-WellFormed user.id r h)) k
