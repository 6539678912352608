-- ===== src/Files/Service/Keeps.antt =====
-- Every request keeps whatever its statements and its changes of the disk keep, whichever calls fail.
use my_personal_cloud.Prelude.{
  ℕ, ◌≡◌, ◌&&◌, Bool, true, List, [], ◌∷◌, All, arith, find, filter, map, inl, inr, sym, ◌∙◌, ◌==◌,
  Option, some, Text, Bool-cases,
}
use my_personal_cloud.World.{Database, Disk, Env, FileRow}
use my_personal_cloud.World.Keeps.{
  Any, Never, Guards, Keeps, AnyDisk, scan_some-Keeps_all, bind-Keeps, reply-Keeps, pure-Keeps,
  require-Keeps, or_reply-Keeps, clock-Keeps, new_uuid-Keeps, query-Keeps, fetch-Keeps, exec-Keeps,
  execute-Keeps, transact-Keeps, commit-Keeps, begin-Keeps,
}
use my_personal_cloud.Auth.{User}
use my_personal_cloud.Storage.Keeps.{save-Keeps, delete_file-Keeps, Erases, Accepts, saved-Erases}
use my_personal_cloud.Files.Names.{folder_full_path}
use my_personal_cloud.Files.Names.Paths.{normalize_parent-IsFolderPath}
use my_personal_cloud.Files.Api.{
  PatchBody, FolderBody, UploadForm, is_file, owned_by, trashed_by, is_inside,
}
use my_personal_cloud.Files.Content.{upload_handler}
use my_personal_cloud.Files.Changes.{
  patched_parent, patch_file_handler, delete_handler, restore_handler, empty_trash_handler,
}
use my_personal_cloud.Files.Folders.{
  cascade, create_folder_handler, patch_folder_handler, delete_folder_handler,
}
use my_personal_cloud.Files.Service.{
  Request, serve, list, search_names, upload, download, patch_file, restore, create_folder,
  patch_folder, delete_folder, trash, empty_trash,
}
use my_personal_cloud.Files.Service.Needs.{CascadeNeeds, Needs, Owns, StoreNeeds}
use my_personal_cloud.Files.Service.Reads.{
  sanitized_IsFileName, patched_parent-OldOr, authenticated-Keeps, refuse_duplicate-Keeps,
  lookup-Keeps, finish_upload-Keeps, delete_all-Keeps, patched_name-Keeps, check_moved-Keeps,
  list-Keeps, search-Keeps, trash-Keeps, download-Keeps,
}

module _ (u : ℕ) (E : Text → Type 0) where
  found-Erases :
      (id : Text) (rows : List FileRow) (r : FileRow)
      → All (λ r. owned_by u r ≡ true → E r.storage_path) rows
      → find (is_file id u) rows ≡ some r
      → E r.storage_path
  found-Erases id [] r h e = absurd (cc e)
  found-Erases id (x ∷ rows) r h e = elim (Bool-cases (is_file id u x)) [
    | inl f ↦ let same : x ≡ r = cc (rw f at e) in rw (← same) (h.0 (ground arith))
    | inr f ↦ found-Erases id rows r h.1 (rw f at e)
  ]

  selected-Erases :
      (q : FileRow → Bool)
      → ((r : FileRow) → q r ≡ true → owned_by u r ≡ true)
      → (rows : List FileRow) → All (λ r. owned_by u r ≡ true → E r.storage_path) rows
      → All E (map (λ (r : FileRow). r.storage_path) (filter q rows))
  selected-Erases q own [] h = tt
  selected-Erases q own (x ∷ rows) h = elim (Bool-cases (q x)) [
    | inl f ↦ rw f (h.0 (own x f), selected-Erases q own rows h.1)
    | inr f ↦ rw f (selected-Erases q own rows h.1)
  ]

module _ (user : User) (P : Database → Type 0) (D : Disk → Type 0) where
  upload-Keeps :
      (env : Env) (form : Option UploadForm)
      → Needs user.id P (upload form)
      → Accepts env D user.id
      → Guards P D Never (upload_handler env (some user) form)
  unfolding upload_handler
  upload-Keeps env form needs accepts = bind-Keeps (authenticated-Keeps user) λ u same.
      bind-Keeps (or_reply-Keeps _ _) λ f _. bind-Keeps (require-Keeps _ _) λ _ _.
        bind-Keeps (or_reply-Keeps _ _) λ part _. bind-Keeps (require-Keeps _ _) λ _ named.
          bind-Keeps (query-Keeps _) λ existing _.
            bind-Keeps (refuse_duplicate-Keeps _ _ existing) λ _ _.
              bind-Keeps (save-Keeps env _ _ (rw same accepts)) λ stored saved.
                bind-Keeps (or_reply-Keeps _ _) λ kept from. bind-Keeps (new_uuid-Keeps env) λ id _.
                  bind-Keeps clock-Keeps λ now _.
                    bind-Keeps
                      (exec-Keeps _ (
                        needs _ same (sanitized_IsFileName part.0 named)
                          (normalize_parent-IsFolderPath f.path)))
                      λ o _. finish_upload-Keeps env _ o (saved-Erases env D stored kept saved from)

  patch_file-Keeps :
      (id : Text) (body : Option PatchBody)
      → Needs user.id P (patch_file id body)
      → Guards P D Never (patch_file_handler (some user) id body)
  unfolding patch_file_handler
  patch_file-Keeps id body needs = bind-Keeps (authenticated-Keeps user) λ u same.
      bind-Keeps (or_reply-Keeps _ _) λ b _. bind-Keeps (require-Keeps _ _) λ _ _.
        bind-Keeps (fetch-Keeps _ _) λ row (db, holds, seen).
          bind-Keeps (or_reply-Keeps _ _) λ current found.
            bind-Keeps (patched_name-Keeps _ _ _) λ name named.
              bind-Keeps (check_moved-Keeps _ _ _ _ _) λ _ _.
                bind-Keeps
                  (execute-Keeps _ _ (
                    rw same (
                      needs db current name _ holds (rw (← same) (sym seen ∙ found)) named
                        (patched_parent-OldOr current.parent_path b.parent_path))))
                  λ _ _. reply-Keeps _

  delete-Keeps :
      (env : Env) (id : Text)
      → Needs user.id P (Request.delete_file id)
      → Owns user.id P env D
      → Guards P D Never (delete_handler env (some user) id)
  unfolding delete_handler
  delete-Keeps env id needs owns = bind-Keeps (authenticated-Keeps user) λ u same.
      bind-Keeps (lookup-Keeps _ _) λ meta (db, holds, found). bind-Keeps clock-Keeps λ now _.
        bind-Keeps (execute-Keeps _ _ (rw same (needs now))) λ _ _.
          bind-Keeps
            (delete_file-Keeps env _ (
              found-Erases user.id (Erases env D) id db.files meta (owns db holds)
                (rw (← same) found)))
            λ _ _. reply-Keeps _

  restore-Keeps :
      (id : Text) → Needs user.id P (restore id) → Guards P D Never (restore_handler (some user) id)
  unfolding restore_handler
  restore-Keeps id needs = bind-Keeps (authenticated-Keeps user) λ u same.
      bind-Keeps (execute-Keeps _ _ (rw same needs))
        λ rows _. bind-Keeps (require-Keeps _ _) λ _ _. reply-Keeps _

  empty_trash-Keeps :
      (env : Env)
      → Needs user.id P empty_trash
      → Owns user.id P env D
      → Guards P D Never (empty_trash_handler env (some user))
  unfolding empty_trash_handler
  empty_trash-Keeps env needs owns = bind-Keeps (authenticated-Keeps user) λ u same.
      bind-Keeps (fetch-Keeps _ _) λ rows (db, holds, seen).
        bind-Keeps
          (scan_some-Keeps_all (Erases env D) _ (
            rw (seen, same)
              (selected-Erases user.id (Erases env D) (trashed_by user.id) (λ r q. ground arith)
                db.files (owns db holds))))
          λ paths erases.
            bind-Keeps (execute-Keeps _ _ (rw same needs))
              λ _ _. bind-Keeps (delete_all-Keeps env _ erases) λ _ _. reply-Keeps _

  create_folder-Keeps :
      (env : Env) (body : Option FolderBody)
      → Needs user.id P (create_folder body)
      → Guards P D Never (create_folder_handler env (some user) body)
  unfolding create_folder_handler
  create_folder-Keeps env body needs = bind-Keeps (authenticated-Keeps user) λ u same.
      bind-Keeps (or_reply-Keeps _ _) λ b _. bind-Keeps (require-Keeps _ _) λ _ named.
        bind-Keeps (query-Keeps _) λ existing _.
          bind-Keeps (refuse_duplicate-Keeps _ _ existing) λ _ _.
            bind-Keeps (new_uuid-Keeps env) λ id _. bind-Keeps clock-Keeps λ now _.
              bind-Keeps
                (execute-Keeps _ _ (
                  needs _ same (sanitized_IsFileName b.name named)
                    (normalize_parent-IsFolderPath b.parent_path)))
                λ _ _. reply-Keeps _

  cascade-Keeps :
      (saved : Database) (old_full new_full : Text)
      → P saved
      → CascadeNeeds user.id P old_full new_full
      → Guards P D Any (cascade saved user.id old_full new_full)
  unfolding cascade
  cascade-Keeps saved old_full new_full holds (files, folders) =
      elim (Bool-cases (old_full == new_full)) [
        | inl e ↦ rw e (pure-Keeps tt tt)
        | inr e ↦ rw e (
            bind-Keeps (transact-Keeps saved _ _ holds files)
              λ _ _. bind-Keeps (transact-Keeps saved _ _ holds folders) λ _ _. pure-Keeps tt tt)
      ]

  patch_folder-Keeps :
      (id : Text) (body : Option PatchBody)
      → Needs user.id P (patch_folder id body)
      → Guards P D Never (patch_folder_handler (some user) id body)
  unfolding patch_folder_handler
  patch_folder-Keeps id body needs = bind-Keeps (authenticated-Keeps user) λ u same.
      bind-Keeps (or_reply-Keeps _ _) λ b _. bind-Keeps (require-Keeps _ _) λ _ _.
        bind-Keeps (fetch-Keeps _ _) λ row (db, holds, seen).
          bind-Keeps (or_reply-Keeps _ _) λ current found.
            bind-Keeps (patched_name-Keeps _ _ _) λ name named.
              bind-Keeps (begin-Keeps _) λ saved kept.
                let steps =
                  needs db current name (patched_parent current.parent_path b.parent_path) holds
                    (rw (← same) (sym seen ∙ found)) named
                    (patched_parent-OldOr current.parent_path b.parent_path) in
                bind-Keeps (transact-Keeps saved _ _ kept (rw same steps.0)) λ _ _.
                  bind-Keeps {G = Any} (rw same (cascade-Keeps saved _ _ kept steps.1))
                    λ _ _. bind-Keeps (commit-Keeps saved _ kept) λ _ _. reply-Keeps _

  delete_folder-Keeps :
      (env : Env) (id : Text)
      → Needs user.id P (delete_folder id)
      → Owns user.id P env D
      → Guards P D Never (delete_folder_handler env (some user) id)
  unfolding delete_folder_handler
  delete_folder-Keeps env id needs owns = bind-Keeps (authenticated-Keeps user) λ u same.
      bind-Keeps (fetch-Keeps _ _) λ row _. bind-Keeps (or_reply-Keeps _ _) λ current _.
        let full = folder_full_path current.parent_path current.name in
        bind-Keeps (fetch-Keeps _ _) λ rows (db, holds, seen).
          bind-Keeps
            (scan_some-Keeps_all (Erases env D) _ (
              rw (seen, same)
                (selected-Erases user.id (Erases env D)
                  (λ r. owned_by user.id r && is_inside full r.parent_path) (λ r q. ground arith)
                  db.files (owns db holds))))
            λ paths erases. bind-Keeps clock-Keeps λ now _. bind-Keeps (begin-Keeps _) λ saved kept.
              let steps = needs full now in
              bind-Keeps (transact-Keeps saved _ _ kept (rw same steps.0)) λ _ _.
                bind-Keeps (transact-Keeps saved _ _ kept (rw same steps.1)) λ _ _.
                  bind-Keeps (transact-Keeps saved _ _ kept (rw same steps.2)) λ _ _.
                    bind-Keeps (commit-Keeps saved _ kept)
                      λ _ _. bind-Keeps (delete_all-Keeps env _ erases) λ _ _. reply-Keeps _

  -- A request of the user keeps `P` and `D` if the statements and the changes of the disk that it may
  -- run keep them.
  pub serve-Guards :
      (env : Env) (r : Request)
      → Needs user.id P r
      → StoreNeeds user.id P env D r
      → Guards P D Never (serve env (some user) r)
  unfolding serve
  serve-Guards env (list path limit offset) needs store = list-Keeps user path limit offset
  serve-Guards env (search_names q limit offset) needs store = search-Keeps user q limit offset
  serve-Guards env (upload form) needs store = upload-Keeps env form needs store
  serve-Guards env (download id inline) needs store = download-Keeps env user id inline
  serve-Guards env (patch_file id body) needs store = patch_file-Keeps id body needs
  serve-Guards env (Request.delete_file id) needs store = delete-Keeps env id needs store
  serve-Guards env (restore id) needs store = restore-Keeps id needs
  serve-Guards env (create_folder body) needs store = create_folder-Keeps env body needs
  serve-Guards env (patch_folder id body) needs store = patch_folder-Keeps id body needs
  serve-Guards env (delete_folder id) needs store = delete_folder-Keeps env id needs store
  serve-Guards env (trash limit offset) needs store = trash-Keeps user limit offset
  serve-Guards env empty_trash needs store = empty_trash-Keeps env needs store

module _ (user : User) (P : Database → Type 0) where
  whatever : (rows : List FileRow) (G : FileRow → Type 0) → ((r : FileRow) → G r) → All G rows
  whatever [] G h = tt
  whatever (r ∷ rows) G h = (h r, whatever rows G h)

  any-Owns : (env : Env) → Owns user.id P env AnyDisk
  any-Owns env db holds = whatever db.files _ (λ r own disk d. tt)

  any-StoreNeeds : (env : Env) (r : Request) → StoreNeeds user.id P env AnyDisk r
  any-StoreNeeds env (list path limit offset) = tt
  any-StoreNeeds env (search_names q limit offset) = tt
  any-StoreNeeds env (upload form) = λ k. ((λ content disk d. tt), (λ disk d. tt), (λ disk d. tt))
  any-StoreNeeds env (download id inline) = tt
  any-StoreNeeds env (patch_file id body) = tt
  any-StoreNeeds env (Request.delete_file id) = any-Owns env
  any-StoreNeeds env (restore id) = tt
  any-StoreNeeds env (create_folder body) = tt
  any-StoreNeeds env (patch_folder id body) = tt
  any-StoreNeeds env (delete_folder id) = any-Owns env
  any-StoreNeeds env (trash limit offset) = tt
  any-StoreNeeds env empty_trash = any-Owns env

  -- A request of the user keeps `P` if the statements that it may run keep `P`.
  pub serve-Keeps :
      (env : Env) (r : Request) → Needs user.id P r → Keeps P Never (serve env (some user) r)
  serve-Keeps env r needs = serve-Guards user P AnyDisk env r needs (any-StoreNeeds env r)
