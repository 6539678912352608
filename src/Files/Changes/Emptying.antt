-- ===== src/Files/Changes/Emptying.antt =====
-- What is left of the trash when it is emptied.
use my_personal_cloud.Prelude.{ℕ, ◌<◌, ◌≡◌, refl, Bool, List, [], ◌∷◌, some, Text, arith, filter}
use my_personal_cloud.Sql.{delete}
use my_personal_cloud.World.{
  Database, Disk, Env, World, Response, Outcome, stop, next, status, or_reply,
}
use my_personal_cloud.World.Triple.{
  Triple, Assertion, Post, bind-Triple, pull, relax, reply-Triple, pure-Triple,
}
use my_personal_cloud.World.Calls.{fetch-Triple, execute-Triple, scan_some-Triple}
use my_personal_cloud.Auth.{User, authenticated}
use my_personal_cloud.Storage.{attempt, change_disk, delete_file}
use my_personal_cloud.Files.Api.{Body, trashed_by, delete_files}
use my_personal_cloud.Files.Changes.{delete_all, empty_trash_handler}

module _ {A : Type 0} where
  filter-none : (p : A → Bool) (xs : List A) → filter p (delete p xs) ≡ []
  filter-none p [] = refl
  filter-none p (x ∷ xs) = ground (arith, filter-none p xs)

-- No file of the user's is in the trash.
abbrev Emptied : ℕ → Assertion
Emptied u db disk = filter (trashed_by u) db.files ≡ []

abbrev EmptiedOnSuccess : ℕ → Response Body → Assertion
EmptiedOnSuccess u r db disk = status r < 400 → Emptied u db disk

delete_file-Emptied :
    (u : ℕ) (env : Env) (p : Text)
    → Triple (Emptied u) (EmptiedOnSuccess u) (λ _. Emptied u) (delete_file env p)
unfolding delete_file attempt change_disk
delete_file-Emptied u env p =
    bind-Triple {Q = λ _. Emptied u} (record { run = λ w h. h })
      λ removed. record { run = λ w h. h }

delete_all-Emptied :
    (u : ℕ) (env : Env) (ps : List Text)
    → Triple (Emptied u) (EmptiedOnSuccess u) (λ _. Emptied u) (delete_all env ps)
unfolding delete_all
delete_all-Emptied u env [] = pure-Triple tt (λ db disk h. h)
delete_all-Emptied u env (p ∷ ps) =
    bind-Triple (delete_file-Emptied u env p) λ _. delete_all-Emptied u env ps

delete-Emptied :
    (u : ℕ) (db db' : Database) (n : ℕ)
    → delete_files (trashed_by u) db ≡ some (db', n)
    → filter (trashed_by u) db'.files ≡ []
unfolding delete_files
delete-Emptied u db db' n e = let none_left = filter-none (trashed_by u) db.files in ground arith

abbrev Free : Assertion
Free db disk = Unit

empty_trash-Triple :
    (env : Env) (user : User)
    → Triple Free
        (EmptiedOnSuccess user.id)
        (λ _. Emptied user.id)
        (empty_trash_handler env (some user))
unfolding empty_trash_handler authenticated or_reply
empty_trash-Triple env user =
    bind-Triple {Q = λ v db disk. Free db disk × (v.id ≡ user.id)}
      (record { run = λ w h. (tt, refl) })
      λ u. pull λ same.
        bind-Triple {Q = λ _. Free}
          (relax (fetch-Triple _ _ (λ db disk h k. absurd (omega arith))) (λ _ _ _ _. tt))
          λ rows. bind-Triple (scan_some-Triple _) λ paths.
            bind-Triple {Q = λ _. Emptied user.id}
              (execute-Triple _ _ (λ db disk h k. absurd (omega arith))
                (λ db disk db' n h e. delete-Emptied user.id db db' n (rw (← same) e)))
              λ n.
                bind-Triple (delete_all-Emptied user.id env _)
                  λ _. reply-Triple _ (λ db disk h _. h)

emptied_of :
    (u : ℕ) (o : Outcome Body (Unit {0})) (db : Database) (disk : Disk) (r : Response Body)
    → Post (EmptiedOnSuccess u) (λ _. Emptied u) o db disk
    → o ≡ stop r
    → status r < 400
    → filter (trashed_by u) db.files ≡ []
emptied_of u (stop s) db disk r h e k = let q : s ≡ r = cc e in h (rw q k)
emptied_of u (next s) db disk r h e k = absurd (cc e)

-- Emptying the trash that is answered with a success leaves no file of the user in the trash,
-- whichever calls fail.
pub empty_trash-Emptied :
    (env : Env) (user : User) (w : World) (r : Response Body)
    → (empty_trash_handler env (some user) w).0 ≡ stop r
    → status r < 400
    → filter (trashed_by user.id) (empty_trash_handler env (some user) w).1.db.files ≡ []
empty_trash-Emptied env user w r e k =
    let (o, w') = empty_trash_handler env (some user) w in
    emptied_of user.id _ w'.db w'.disk r ((empty_trash-Triple env user).run w tt) e k
