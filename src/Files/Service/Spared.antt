-- ===== src/Files/Service/Spared.antt =====
-- What the requests of a user leave of the contents on the disk.
use my_personal_cloud.Prelude.{
  ℕ, ◌≡◌, ◌≢◌, refl, ◌∙◌, Bool, true, List, [], ◌∷◌, Option, some, Text, All, arith, Bool-cases,
  inl, inr,
}
use my_personal_cloud.Sql.{delete}
use my_personal_cloud.Sql.Tables.{All-update}
use my_personal_cloud.World.{Disk, FileRow, FolderRow, Database, World, Env}
use my_personal_cloud.World.Keeps.{Step, guarded}
use my_personal_cloud.Storage.{abs, rel_path, read_file}
use my_personal_cloud.Storage.Keeps.{destination, Erases, Accepts}
use my_personal_cloud.Storage.Reading.{read-remove_other, read-write_other}
use my_personal_cloud.Auth.{User}
use my_personal_cloud.Files.Api.{owned_by, update_files, delete_files, delete_folders}
use my_personal_cloud.Files.Changes.{mark_deleted}
use my_personal_cloud.Files.Service.{
  Request, serve, list, search_names, upload, download, patch_file, restore, create_folder,
  patch_folder, delete_folder, trash, empty_trash,
}
use my_personal_cloud.Files.Service.Needs.{Needs, Owns, StoreNeeds}
use my_personal_cloud.Files.Service.Keeps.{serve-Guards}

-- No row of the user is stored at the path, and no upload of the user is put there.
abbrev pub IsForeign : Env → ℕ → Database → Text → Type 0
IsForeign env u db path =
    All (λ r. owned_by u r ≡ true → path ≢ abs env.storage_root r.storage_path) db.files
    × ((k : ℕ)
        → (path ≢ destination env u k)
          × (path ≢ abs env.storage_root (rel_path env.storage_root (destination env u k))))

module _ (env : Env) (u : ℕ) (path : Text) (content : Option (List ℕ)) where
  -- What is read at the path.
  abbrev Reads : Disk → Type 0
  Reads disk = read_file path disk ≡ content

  abbrev Elsewhere : FileRow → Type 0
  Elsewhere r = owned_by u r ≡ true → path ≢ abs env.storage_root r.storage_path

  abbrev NoneThere : Database → Type 0
  NoneThere db = All Elsewhere db.files

  other-Erases : (p : Text) → path ≢ abs env.storage_root p → Erases env Reads p
  other-Erases p other disk d = read-remove_other path (abs env.storage_root p) disk other ∙ d

  other-Owns : Owns u NoneThere env Reads
  other-Owns db holds = owned db.files holds
    where
      owned :
          (rows : List FileRow)
          → All Elsewhere rows
          → All (λ r. owned_by u r ≡ true → Erases env Reads r.storage_path) rows
      owned [] h = tt
      owned (r ∷ rows) h = ((λ own. other-Erases r.storage_path (h.0 own)), owned rows h.1)

  mark_deleted-NoneThere :
      (p : FileRow → Bool) (now : ℕ) → Step NoneThere (update_files p (mark_deleted now))
  unfolding update_files
  mark_deleted-NoneThere p now db db' n k e =
      let rows = All-update Elsewhere p (mark_deleted now) db.files (λ r h _. h) k in ground arith

  All-delete :
      (p : FileRow → Bool) (rows : List FileRow)
      → All Elsewhere rows
      → All Elsewhere (delete p rows)
  All-delete p [] h = tt
  All-delete p (r ∷ rows) h = elim (Bool-cases (p r)) [
    | inl e ↦ rw e (All-delete p rows h.1)
    | inr e ↦ rw e (h.0, All-delete p rows h.1)
  ]

  delete_files-NoneThere : (p : FileRow → Bool) → Step NoneThere (delete_files p)
  unfolding delete_files
  delete_files-NoneThere p db db' n k e = let rows = All-delete p db.files k in ground arith

  delete_folders-NoneThere : (p : FolderRow → Bool) → Step NoneThere (delete_folders p)
  unfolding delete_folders
  delete_folders-NoneThere p db db' n k e = ground arith

  module _
      (foreign : (k : ℕ)
        → (path ≢ destination env u k)
          × (path ≢ abs env.storage_root (rel_path env.storage_root (destination env u k)))) where
    other-Accepts : Accepts env Reads u
    other-Accepts k = (
      (λ bytes disk d. read-write_other path (destination env u k) bytes disk (foreign k).0 ∙ d),
      (λ disk d. read-remove_other path (destination env u k) disk (foreign k).0 ∙ d),
      other-Erases (rel_path env.storage_root (destination env u k)) (foreign k).1,
    )

abbrev Anything : Database → Type 0
Anything db = Unit

-- Whatever a user requests of the file service, and whichever calls of the database or the file
-- system fail: what is stored at a path stays as it is if none of the files of the user is stored
-- there and no upload of the user is put there.
pub serve_reads :
    (env : Env) (user : User) (r : Request) (w : World) (path : Text)
    → IsForeign env user.id w.db path
    → read_file path (serve env (some user) r w).1.disk ≡ read_file path w.disk
serve_reads env user r w path (rows, drawn) = stays r
  where
    content : Option (List ℕ)
    content = read_file path w.disk

    -- The requests whose handlers remove what rows of the user name.
    erased :
        (r : Request)
        → Needs user.id (NoneThere env user.id path content) r
        → StoreNeeds user.id
            (NoneThere env user.id path content)
            env
            (Reads env user.id path content)
            r
        → Reads env user.id path content (serve env (some user) r w).1.disk
    erased r needs store =
        guarded w
          (serve-Guards user (NoneThere env user.id path content) (Reads env user.id path content)
            env r needs store)
          rows refl

    plain :
        (r : Request)
        → Needs user.id Anything r
        → StoreNeeds user.id Anything env (Reads env user.id path content) r
        → Reads env user.id path content (serve env (some user) r w).1.disk
    plain r needs store =
        guarded w (serve-Guards user Anything (Reads env user.id path content) env r needs store) tt
          refl

    stays : (r : Request) → Reads env user.id path content (serve env (some user) r w).1.disk
    stays (list p limit offset) = plain _ tt tt
    stays (search_names q limit offset) = plain _ tt tt
    stays (upload form) =
        plain _ (λ _ _ _ _ _ _ _ _ _. tt) (other-Accepts env user.id path content drawn)
    stays (download id inline) = plain _ tt tt
    stays (patch_file id body) = plain _ (λ _ _ _ _ _ _ _ _ _ _ _ _ _. tt) tt
    stays (Request.delete_file id) =
        erased _ (λ now. mark_deleted-NoneThere env user.id path content _ now)
          (other-Owns env user.id path content)
    stays (restore id) = plain _ (λ _ _ _ _ _. tt) tt
    stays (create_folder body) = plain _ (λ _ _ _ _ _ _ _ _ _. tt) tt
    stays (patch_folder id body) =
        plain _ (λ _ _ _ _ _ _ _ _. ((λ _ _ _ _ _. tt), ((λ _ _ _ _ _. tt), (λ _ _ _ _ _. tt)))) tt
    stays (delete_folder id) =
        erased _
          (λ full now. (
            mark_deleted-NoneThere env user.id path content _ now,
            delete_folders-NoneThere env user.id path content _,
            delete_folders-NoneThere env user.id path content _,
          ))
          (other-Owns env user.id path content)
    stays (trash limit offset) = plain _ tt tt
    stays empty_trash =
        erased _ (delete_files-NoneThere env user.id path content _)
          (other-Owns env user.id path content)
