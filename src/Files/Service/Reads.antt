-- ===== src/Files/Service/Reads.antt =====
-- The parts that handlers share, and the handlers that only read, keep whatever holds.
use my_personal_cloud.Prelude.{
  sym, ◌∙◌, find, All, ℕ, ◌≡◌, inl, inr, refl, ◌==◌, eq_iff, true, not, ◌||◌, List, [], ◌∷◌, Option,
  none, some, Text, String, arith, Bool-cases,
}
use my_personal_cloud.World.{Database, Disk, Env, FileRow, or_reply}
use my_personal_cloud.World.Keeps.{
  Any, Never, Guards, regard, bind-Keeps, reply-Keeps, pure-Keeps, require-Keeps, or_reply-Keeps,
  query-Keeps, fetch-Keeps, scan_all-Keeps,
}
use my_personal_cloud.Auth.{User, authenticated}
use my_personal_cloud.Storage.Keeps.{open_file-Keeps, delete_file-Keeps, Erases}
use my_personal_cloud.Files.Names.{sanitize_filename}
use my_personal_cloud.Files.Names.Paths.{IsFolderPath, normalize_parent-IsFolderPath}
use my_personal_cloud.Files.Names.Sanitize.{IsFileName, sanitize_filename-IsFileName}
use my_personal_cloud.Files.Api.{is_file}
use my_personal_cloud.Files.Content.{refuse_duplicate, finish_upload, lookup, download_handler}
use my_personal_cloud.Files.Listing.{list_folders, list_handler, search_handler, trash_handler}
use my_personal_cloud.Files.Changes.{patched_name, patched_parent, check_moved, delete_all}
use my_personal_cloud.Files.Service.Needs.{OldOr}

pub sanitized_IsFileName :
    (s : Text) → not (sanitize_filename s == []) ≡ true → IsFileName (sanitize_filename s)
sanitized_IsFileName s h = elim (sanitize_filename-IsFileName s) [
  | inl e ↦ absurd (ground (arith, eq_iff (sanitize_filename s) []))
  | inr p ↦ p
]

pub patched_parent-OldOr :
    (current : Text) (o : Option Text) → OldOr IsFolderPath current (patched_parent current o)
patched_parent-OldOr current none = inl refl
patched_parent-OldOr current (some p) = inr (normalize_parent-IsFolderPath p)

module _ {P : Database → Type 0} {D : Disk → Type 0} where
  pub authenticated-Keeps :
      {B : Type 0} (user : User)
      → Guards P D (λ v. v.id ≡ user.id) (authenticated {B = B} (some user))
  unfolding authenticated or_reply
  authenticated-Keeps user = record { triple = record { run = λ w p. (p, refl) } }

  pub refuse_duplicate-Keeps :
      {R : Type 0} (message : String) (id_of : R → Text) (o : Option (Option R))
      → Guards P D Any (refuse_duplicate message id_of o)
  unfolding refuse_duplicate
  refuse_duplicate-Keeps message id_of none = pure-Keeps tt tt
  refuse_duplicate-Keeps message id_of (some none) = pure-Keeps tt tt
  refuse_duplicate-Keeps message id_of (some (some r)) = reply-Keeps _

  pub list_folders-Keeps :
      (user_id : ℕ) (parent : Text) (limit offset : ℕ)
      → Guards P D Any (list_folders user_id parent limit offset)
  unfolding list_folders
  list_folders-Keeps user_id parent limit offset =
      bind-Keeps (fetch-Keeps _ _)
        λ rows _. bind-Keeps (scan_all-Keeps _ _) λ scanned _. pure-Keeps _ tt

  -- The row comes from some database with `P`.
  pub lookup-Keeps :
      (user_id : ℕ) (id : Text)
      → Guards P D
          (λ r. (db : Database) × P db × (find (is_file id user_id) db.files ≡ some r))
          (lookup user_id id)
  unfolding lookup
  lookup-Keeps user_id id =
      bind-Keeps (fetch-Keeps _ _)
        λ row (db, holds, seen). regard (λ r e. (db, holds, sym seen ∙ e)) (or_reply-Keeps row _)

  pub finish_upload-Keeps :
      (env : Env) (r : FileRow) (o : Option ℕ)
      → Erases env D r.storage_path
      → Guards P D Never (finish_upload env r o)
  unfolding finish_upload
  finish_upload-Keeps env r none h = bind-Keeps (delete_file-Keeps env _ h) λ _ _. reply-Keeps _
  finish_upload-Keeps env r (some n) h = reply-Keeps _

  pub delete_all-Keeps :
      (env : Env) (ps : List Text) → All (Erases env D) ps → Guards P D Any (delete_all env ps)
  unfolding delete_all
  delete_all-Keeps env [] h = pure-Keeps tt tt
  delete_all-Keeps env (p ∷ ps) h =
      bind-Keeps (delete_file-Keeps env p h.0) λ _ _. delete_all-Keeps env ps h.1

  pub patched_name-Keeps :
      (current : Text) (o : Option Text) (message : String)
      → Guards P D (OldOr IsFileName current) (patched_name current o message)
  unfolding patched_name
  patched_name-Keeps current none message = pure-Keeps current (inl refl)
  patched_name-Keeps current (some name) message =
      bind-Keeps (require-Keeps _ _) λ _ e. pure-Keeps _ (inr (sanitized_IsFileName name e))

  pub check_moved-Keeps :
      (user_id : ℕ) (id : Text) (current : FileRow) (name parent : Text)
      → Guards P D Any (check_moved user_id id current name parent)
  unfolding check_moved
  check_moved-Keeps user_id id current name parent =
      elim (Bool-cases (not (name == current.name) || not (parent == current.parent_path))) [
        | inl e ↦ rw e (bind-Keeps (query-Keeps _) λ o _. refuse_duplicate-Keeps _ _ o)
        | inr e ↦ rw e (pure-Keeps tt tt)
      ]

  pub list-Keeps :
      (user : User) (path limit offset : Text)
      → Guards P D Never (list_handler (some user) path limit offset)
  unfolding list_handler
  list-Keeps user path limit offset = bind-Keeps (authenticated-Keeps user) λ u _.
      bind-Keeps (list_folders-Keeps _ _ _ _) λ folders _. bind-Keeps (fetch-Keeps _ _) λ rows _.
        bind-Keeps (scan_all-Keeps _ _)
          λ scanned _. bind-Keeps (query-Keeps _) λ total _. reply-Keeps _

  pub search-Keeps :
      (user : User) (q limit offset : Text)
      → Guards P D Never (search_handler (some user) q limit offset)
  unfolding search_handler
  search-Keeps user q limit offset = bind-Keeps (authenticated-Keeps user) λ u _.
      bind-Keeps (require-Keeps _ _) λ _ _. bind-Keeps (fetch-Keeps _ _) λ rows _.
        bind-Keeps (scan_all-Keeps _ _) λ scanned _.
          bind-Keeps (fetch-Keeps _ _)
            λ folder_rows _. bind-Keeps (scan_all-Keeps _ _) λ folders _. reply-Keeps _

  pub trash-Keeps :
      (user : User) (limit offset : Text)
      → Guards P D Never (trash_handler (some user) limit offset)
  unfolding trash_handler
  trash-Keeps user limit offset = bind-Keeps (authenticated-Keeps user) λ u _.
      bind-Keeps (fetch-Keeps _ _) λ rows _.
        bind-Keeps (scan_all-Keeps _ _)
          λ scanned _. bind-Keeps (query-Keeps _) λ total _. reply-Keeps _

  pub download-Keeps :
      (env : Env) (user : User) (id inline : Text)
      → Guards P D Never (download_handler env (some user) id inline)
  unfolding download_handler
  download-Keeps env user id inline = bind-Keeps (authenticated-Keeps user) λ u _.
      bind-Keeps (lookup-Keeps _ _) λ meta _.
        bind-Keeps (open_file-Keeps _ _)
          λ opened _. bind-Keeps (or_reply-Keeps _ _) λ bytes _. reply-Keeps _

-- The requests that change the database.
