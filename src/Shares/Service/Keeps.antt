-- ===== src/Shares/Service/Keeps.antt =====
-- What the requests on share links do to the tables.
use my_personal_cloud.Prelude.{
  ℕ, ◌≡◌, refl, ◌==◌, Bool, true, false, Option, none, some, Text, if◌then◌else◌,
}
use my_personal_cloud.Prelude.Int.{ℤ}
use my_personal_cloud.World.{Database, Env, ShareRow, Handler, or_reply}
use my_personal_cloud.World.Keeps.{
  Never, Step, Any, Keeps, bind-Keeps, reply-Keeps, pure-Keeps, require-Keeps, or_reply-Keeps,
  clock-Keeps, new_uuid-Keeps, fetch-Keeps, exec-Keeps, execute-Keeps, scan_all-Keeps,
  scan_some-Keeps, forget,
}
use my_personal_cloud.Auth.{User, authenticated}
use my_personal_cloud.Storage.{attempt}
use my_personal_cloud.Storage.Keeps.{open_file-Keeps}
use my_personal_cloud.Shares.{
  ShareBody, insert_share, update_shares, generate_token, one_target, check_file, check_folder,
  create_share, create_handler, list_shares, list_handler, revoked, is_share, revoke_handler,
}
use my_personal_cloud.Shares.Access.{
  resolve_share, one_view_more, increment_views, public_file_handler, public_folder_handler,
  stream_shared_file, ShareQuery, route_share, public_share_router,
}
use my_personal_cloud.Shares.Service.{
  ShareRequest, serve_shares, create_link, list_links, revoke_link, open_link,
}

-- The rows that a user may create.
pub record IsNewShare (u : ℕ) (r : ShareRow) : Type 0 where
  pub own : r.user_id ≡ u
  pub unseen : r.current_views ≡ 0
  pub active : r.is_active ≡ true

-- What the statements of a request keep.
abbrev pub ShareNeeds : (Database → Type 0) → ℕ → ShareRequest → Type 0
ShareNeeds P u (create_link body) = (r : ShareRow) → IsNewShare u r → Step P (insert_share r)
ShareNeeds P u list_links = Unit
ShareNeeds P u (revoke_link id) = Step P (update_shares (is_share id u) revoked)
ShareNeeds P u (open_link token q) =
    (id : Text) → Step P (update_shares (λ s. s.id == id) one_view_more)

module _ {P : Database → Type 0} where
  one_target-Keeps : (f g : Option Text) → Keeps P Any (one_target f g)
  unfolding one_target
  one_target-Keeps none none = reply-Keeps _
  one_target-Keeps (some f) (some g) = reply-Keeps _
  one_target-Keeps (some f) none = pure-Keeps tt tt
  one_target-Keeps none (some g) = pure-Keeps tt tt

  generate_token-Keeps : {B : Type 0} (env : Env) → Keeps P Any (generate_token {B = B} env)
  unfolding generate_token attempt
  generate_token-Keeps env =
      bind-Keeps {G = Any} (record { triple = record { run = λ w p. (p, tt) } })
        λ done _.
          bind-Keeps (require-Keeps _ _) λ _ _. record { triple = record { run = λ w p. (p, tt) } }

  check_file-Keeps : (u : ℕ) (f : Option Text) → Keeps P Any (check_file u f)
  unfolding check_file
  check_file-Keeps u none = pure-Keeps tt tt
  check_file-Keeps u (some id) = bind-Keeps (fetch-Keeps _ _) λ n _. forget (require-Keeps _ _)

  check_folder-Keeps : (u : ℕ) (f : Option Text) → Keeps P Any (check_folder u f)
  unfolding check_folder
  check_folder-Keeps u none = pure-Keeps tt tt
  check_folder-Keeps u (some id) = bind-Keeps (fetch-Keeps _ _) λ n _. forget (require-Keeps _ _)

  resolve_share-Keeps : (token : Text) → Keeps P Any (resolve_share token)
  unfolding resolve_share
  resolve_share-Keeps token = bind-Keeps (fetch-Keeps _ _) λ row _.
      bind-Keeps (or_reply-Keeps _ _) λ s _. bind-Keeps (require-Keeps _ _) λ _ _.
        bind-Keeps clock-Keeps λ now _.
          bind-Keeps (require-Keeps _ _)
            λ _ _. bind-Keeps (require-Keeps _ _) λ _ _. pure-Keeps s tt

  if-Keeps :
      {m n : Handler ShareBody (Unit {0})} (b : Bool)
      → Keeps P Never m
      → Keeps P Never n
      → Keeps P Never (if b then m else n)
  if-Keeps true h k = h
  if-Keeps false h k = k

  -- The statement that counts a view keeps `P`.
  module _ (counts : (id : Text) → Step P (update_shares (λ s. s.id == id) one_view_more)) where
    increment_views-Keeps : (id : Text) → Keeps P Any (increment_views id)
    unfolding increment_views
    increment_views-Keeps id = bind-Keeps (exec-Keeps _ (counts id)) λ _ _. pure-Keeps tt tt

    public_file-Keeps : (token : Text) → Keeps P Never (public_file_handler token)
    unfolding public_file_handler
    public_file-Keeps token = bind-Keeps (resolve_share-Keeps token) λ s _.
        bind-Keeps (or_reply-Keeps _ _) λ f _. bind-Keeps (fetch-Keeps _ _) λ row _.
          bind-Keeps (or_reply-Keeps _ _)
            λ r _. bind-Keeps (increment_views-Keeps s.id) λ _ _. reply-Keeps _

    public_folder-Keeps : (token : Text) → Keeps P Never (public_folder_handler token)
    unfolding public_folder_handler
    public_folder-Keeps token = bind-Keeps (resolve_share-Keeps token) λ s _.
        bind-Keeps (or_reply-Keeps _ _) λ f _. bind-Keeps (fetch-Keeps _ _) λ row _.
          bind-Keeps (or_reply-Keeps _ _) λ top _. bind-Keeps (fetch-Keeps _ _) λ rows _.
            bind-Keeps (scan_some-Keeps _) λ folders _. bind-Keeps (fetch-Keeps _ _) λ more _.
              bind-Keeps (scan_some-Keeps _)
                λ files _. bind-Keeps (increment_views-Keeps s.id) λ _ _. reply-Keeps _

    stream-Keeps :
        (env : Env) (id : Text) (s : ShareRow) (preview : Bool)
        → Keeps P Never (stream_shared_file env id s preview)
    unfolding stream_shared_file
    stream-Keeps env id s preview = bind-Keeps (fetch-Keeps _ _) λ row _.
        bind-Keeps (or_reply-Keeps _ _) λ f _. bind-Keeps (increment_views-Keeps s.id) λ _ _.
          bind-Keeps (fetch-Keeps _ _) λ again _. bind-Keeps (or_reply-Keeps _ _) λ stored _.
            bind-Keeps (open_file-Keeps env _)
              λ opened _. bind-Keeps (or_reply-Keeps _ _) λ bytes _. reply-Keeps _

    route-Keeps :
        (env : Env) (token : Text) (q : ShareQuery) (s : ShareRow) (f g : Option Text)
        → Keeps P Never (route_share env token q s f g)
    unfolding route_share
    route-Keeps env token q s (some f) none =
        if-Keeps _ (stream-Keeps env f s _) (public_file-Keeps token)
    route-Keeps env token q s (some f) (some g) =
        if-Keeps _ (stream-Keeps env f s _)
          (if-Keeps _ (stream-Keeps env q.file_id s _) (public_file-Keeps token))
    route-Keeps env token q s none (some g) =
        if-Keeps _ (reply-Keeps _)
          (if-Keeps _ (stream-Keeps env q.file_id s _) (public_folder-Keeps token))
    route-Keeps env token q s none none = if-Keeps _ (reply-Keeps _) (reply-Keeps _)

    pub router-Keeps :
        (env : Env) (token : Text) (q : ShareQuery)
        → Keeps P Never (public_share_router env token q)
    unfolding public_share_router
    router-Keeps env token q =
        bind-Keeps (resolve_share-Keeps token)
          λ s _. route-Keeps env token q s s.file_id s.folder_id

  authenticated_as :
      (user : User) → Keeps P (λ v. v.id ≡ user.id) (authenticated {B = ShareBody} (some user))
  unfolding authenticated or_reply
  authenticated_as user = record { triple = record { run = λ w p. (p, refl) } }

  create_share-Keeps :
      (env : Env) (u : ℕ) (f g : Option Text) (hours views : ℤ)
      → ((r : ShareRow) → IsNewShare u r → Step P (insert_share r))
      → Keeps P Any (create_share env u f g hours views)
  unfolding create_share
  create_share-Keeps env u f g hours views inserts = bind-Keeps (one_target-Keeps f g) λ _ _.
      bind-Keeps (generate_token-Keeps env) λ token _. bind-Keeps (new_uuid-Keeps env) λ id _.
        bind-Keeps clock-Keeps λ now _. bind-Keeps (check_file-Keeps u f) λ _ _.
          bind-Keeps (check_folder-Keeps u g) λ _ _. bind-Keeps clock-Keeps λ inserted _.
            bind-Keeps
              (execute-Keeps _ _ (inserts _ (record { own = refl; unseen = refl; active = refl })))
              λ _ _. pure-Keeps _ tt

  pub serve_shares-Keeps :
      (env : Env) (user : User) (r : ShareRequest)
      → ShareNeeds P user.id r
      → Keeps P Never (serve_shares env (some user) r)
  unfolding serve_shares create_handler list_handler list_shares revoke_handler
  serve_shares-Keeps env user (create_link body) needs =
      bind-Keeps (authenticated_as user) λ u same. bind-Keeps (or_reply-Keeps _ _) λ b _.
        bind-Keeps {G = Any} (rw same (create_share-Keeps env user.id _ _ _ _ needs))
          λ link _. reply-Keeps _
  serve_shares-Keeps env user list_links needs = bind-Keeps (authenticated_as user) λ u same.
      bind-Keeps {G = Any} (bind-Keeps (fetch-Keeps _ _) λ rows _. forget (scan_all-Keeps _ _))
        λ links _. reply-Keeps _
  serve_shares-Keeps env user (revoke_link id) needs = bind-Keeps (authenticated_as user) λ u same.
      bind-Keeps (execute-Keeps _ _ (rw same needs))
        λ n _. bind-Keeps (require-Keeps _ _) λ _ _. reply-Keeps _
  serve_shares-Keeps env user (open_link token q) needs = router-Keeps needs env token q
