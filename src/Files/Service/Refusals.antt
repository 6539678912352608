-- ===== src/Files/Service/Refusals.antt =====
-- Requests without a user, requests that only read, and that every request is answered.
use my_personal_cloud.Prelude.{ℕ, ◌≡◌, refl, Bool, true, false, none, some, ap, Option}
use my_personal_cloud.World.{Response, Database, stop, error, ◌>>=◌, or_reply, Env, World}
use my_personal_cloud.World.Keeps.{kept, answered}
use my_personal_cloud.Auth.{User, authenticated}
use my_personal_cloud.Files.Listing.{list_handler, search_handler, trash_handler}
use my_personal_cloud.Files.Content.{upload_handler, download_handler}
use my_personal_cloud.Files.Changes.{
  patch_file_handler, delete_handler, restore_handler, empty_trash_handler,
}
use my_personal_cloud.Files.Folders.{
  create_folder_handler, patch_folder_handler, delete_folder_handler,
}
use my_personal_cloud.Files.Service.{
  Request, serve, list, search_names, upload, download, patch_file, restore, create_folder,
  patch_folder, delete_folder, trash, empty_trash,
}
use my_personal_cloud.Files.Api.{Body}
use my_personal_cloud.Files.Service.Needs.{Needs}
use my_personal_cloud.Files.Service.Keeps.{serve-Keeps}

-- Without a user every request is answered with 401, and nothing of the world changes: no table,
-- no file, and no call is made.
pub serve_unauthorized :
    (env : Env) (r : Request) (w : World)
    → serve env none r w ≡ (stop (error 401 "unauthorized"), w)
unfolding serve list_handler search_handler trash_handler upload_handler download_handler
    patch_file_handler delete_handler restore_handler empty_trash_handler create_folder_handler
    patch_folder_handler delete_folder_handler authenticated or_reply ◌>>=◌
serve_unauthorized env (list path limit offset) w = refl
serve_unauthorized env (search_names q limit offset) w = refl
serve_unauthorized env (upload form) w = refl
serve_unauthorized env (download id inline) w = refl
serve_unauthorized env (patch_file id body) w = refl
serve_unauthorized env (Request.delete_file id) w = refl
serve_unauthorized env (restore id) w = refl
serve_unauthorized env (create_folder body) w = refl
serve_unauthorized env (patch_folder id body) w = refl
serve_unauthorized env (delete_folder id) w = refl
serve_unauthorized env (trash limit offset) w = refl
serve_unauthorized env empty_trash w = refl

abbrev pub is_read : Request → Bool
is_read (list path limit offset) = true
is_read (search_names q limit offset) = true
is_read (download id inline) = true
is_read (trash limit offset) = true
is_read _ = false

-- Listing, searching, downloading and looking at the trash leave the tables as they are,
-- whichever calls fail.
pub serve_read_only :
    (env : Env) (user : User) (r : Request) (w : World)
    → is_read r ≡ true
    → (serve env (some user) r w).1.db ≡ w.db
serve_read_only env user (list path limit offset) w h =
    kept w (serve-Keeps user (λ db. db ≡ w.db) env (list path limit offset) tt) refl
serve_read_only env user (search_names q limit offset) w h =
    kept w (serve-Keeps user (λ db. db ≡ w.db) env (search_names q limit offset) tt) refl
serve_read_only env user (download id inline) w h =
    kept w (serve-Keeps user (λ db. db ≡ w.db) env (download id inline) tt) refl
serve_read_only env user (trash limit offset) w h =
    kept w (serve-Keeps user (λ db. db ≡ w.db) env (trash limit offset) tt) refl
serve_read_only env user (upload form) w h = absurd (cc h)
serve_read_only env user (patch_file id body) w h = absurd (cc h)
serve_read_only env user (Request.delete_file id) w h = absurd (cc h)
serve_read_only env user (restore id) w h = absurd (cc h)
serve_read_only env user (create_folder body) w h = absurd (cc h)
serve_read_only env user (patch_folder id body) w h = absurd (cc h)
serve_read_only env user (delete_folder id) w h = absurd (cc h)
serve_read_only env user empty_trash w h = absurd (cc h)

-- What a handler keeps of the tables when nothing is asked.
abbrev Nothing : Database → Type 0
Nothing db = Unit

Needs-Nothing : (u : ℕ) (r : Request) → Needs u Nothing r
Needs-Nothing u (list path limit offset) = tt
Needs-Nothing u (search_names q limit offset) = tt
Needs-Nothing u (upload form) = λ _ _ _ _ _ _ _ _ _. tt
Needs-Nothing u (download id inline) = tt
Needs-Nothing u (patch_file id body) = λ _ _ _ _ _ _ _ _ _ _ _ _ _. tt
Needs-Nothing u (Request.delete_file id) = λ _ _ _ _ _ _. tt
Needs-Nothing u (restore id) = λ _ _ _ _ _. tt
Needs-Nothing u (create_folder body) = λ _ _ _ _ _ _ _ _ _. tt
Needs-Nothing u (patch_folder id body) =
    λ _ _ _ _ _ _ _ _. ((λ _ _ _ _ _. tt), ((λ _ _ _ _ _. tt), (λ _ _ _ _ _. tt)))
Needs-Nothing u (delete_folder id) =
    λ _ _. ((λ _ _ _ _ _. tt), (λ _ _ _ _ _. tt), (λ _ _ _ _ _. tt))
Needs-Nothing u (trash limit offset) = tt
Needs-Nothing u empty_trash = λ _ _ _ _ _. tt

-- Every request of the file service is answered, with or without a user and whichever calls fail:
-- no path through a handler ends without a response.
pub serve_answers :
    (env : Env) (user : Option User) (r : Request) (w : World)
    → (answer : Response Body) × ((serve env user r w).0 ≡ stop answer)
serve_answers env none r w = (error 401 "unauthorized", ap (λ x. x.0) (serve_unauthorized env r w))
serve_answers env (some user) r w =
    answered w (serve-Keeps user Nothing env r (Needs-Nothing user.id r)) tt
