-- ===== src/Photos/Service.antt =====
-- The routes of photos in cmd/server/main.go to the handlers of internal/photos/photos.go, and
-- whose images they serve.
use my_personal_cloud.Prelude.{
  ℕ, ◌≡◌, refl, sym, ◌∙◌, Bool, true, false, List, [], Option, none, some, Text, find,
}
use my_personal_cloud.World.{
  Database, Disk, Env, World, FileRow, Response, stop, stream, Handler, Endpoint, pure,
}
use my_personal_cloud.World.Triple.{
  Assertion, Triple, bind-Triple, weaken, pull, relax, reply-Triple, pure-Triple, or_reply-Triple,
}
use my_personal_cloud.World.Calls.{fetch-Triple, query-Triple, scan_all-Triple}
use my_personal_cloud.Auth.{User, authenticated}
use my_personal_cloud.Storage.{attempt, read_disk, given, open_file, change_disk}
use my_personal_cloud.Photos.{
  PhotoBody, Images, is_photo, list_handler, lookup_image, thumb_handler, full_handler, stat,
  generate_thumb, make_thumb, store_thumb, store_made, rename_thumb, ensure_thumb, confirmed,
}

pub data PhotoRequest : Type 0 where
  list : Text → Text → PhotoRequest
  thumb : Text → Text → PhotoRequest
  full : Text → PhotoRequest

unfoldable pub serve_photos :
    {P : Type 0} → Images P → Env → Option User → PhotoRequest → Endpoint PhotoBody
serve_photos images env user (list limit offset) = list_handler user limit offset
serve_photos images env user (thumb id size) = thumb_handler images env user id size
serve_photos images env user (full id) = full_handler env user id

abbrev pub asked : PhotoRequest → Text
asked (list limit offset) = []
asked (thumb id size) = id
asked (full id) = id

-- Bytes are sent only for an image of the user, and the tables stay as they were.
abbrev pub OwnPhoto : User → Text → Database → Response PhotoBody → Assertion
OwnPhoto user id before (stream mime size disposition bytes) = λ db disk.
    (db ≡ before) × ((row : FileRow) × (find (is_photo id user.id) before.files ≡ some row))
OwnPhoto user id before _ = λ db disk. db ≡ before

module _ {B : Type 0} (Q : Database → Type 0) (E : Response B → Assertion) where
  -- A handler that sends nothing and keeps the tables.
  abbrev Quiet : {A : Type 0} → Handler B A → Type 0
  Quiet m = Triple (λ db disk. Q db) E (λ _ db disk. Q db) m

  attempt-Quiet : Quiet attempt
  unfolding attempt
  attempt-Quiet = record { run = λ w p. p }

  stat-Quiet : (path : Text) → Quiet (stat path)
  unfolding stat
  stat-Quiet path = record { run = λ w p. p }

  change_disk-Quiet : (f : Disk → Disk) → Quiet (change_disk f)
  unfolding change_disk
  change_disk-Quiet f = record { run = λ w p. p }

  read_disk-Quiet : (path : Text) → Quiet (read_disk path)
  unfolding read_disk
  read_disk-Quiet path = record { run = λ w p. p }

  pure-Quiet : {A : Type 0} (a : A) → Quiet (pure a)
  pure-Quiet a = pure-Triple a (λ db disk p. p)

  given-Quiet : {A : Type 0} (b : Bool) (m : Handler B (Option A)) → Quiet m → Quiet (given b m)
  given-Quiet true m t = t
  given-Quiet false m t = pure-Quiet none

  open_file-Quiet : (env : Env) (path : Text) → Quiet (open_file env path)
  unfolding open_file
  open_file-Quiet env path =
      bind-Triple attempt-Quiet λ opened. given-Quiet opened _ (read_disk-Quiet _)

  rename_thumb-Quiet : (tmp path : Text) (written : Bool) → Quiet (rename_thumb tmp path written)
  unfolding rename_thumb
  rename_thumb-Quiet tmp path false = pure-Quiet false
  rename_thumb-Quiet tmp path true =
      bind-Triple attempt-Quiet λ renamed. bind-Triple (change_disk-Quiet _) λ _. pure-Quiet renamed

  store_made-Quiet : (path : Text) (o : Option (List ℕ)) → Quiet (store_made path o)
  unfolding store_thumb
  store_made-Quiet path none = pure-Quiet false
  store_made-Quiet path (some bytes) =
      bind-Triple attempt-Quiet
        λ written. bind-Triple (change_disk-Quiet _) λ _. rename_thumb-Quiet _ path written

  module _ {P : Type 0} (images : Images P) (env : Env) (source path : Text) (size : ℕ) where
    make_thumb-Quiet : (o : Option Bool) → Quiet (make_thumb images env source path size o)
    make_thumb-Quiet (some true) = pure-Quiet true
    make_thumb-Quiet (some false) =
        bind-Triple (open_file-Quiet env source) λ content. store_made-Quiet path _
    make_thumb-Quiet none =
        bind-Triple (open_file-Quiet env source) λ content. store_made-Quiet path _

    ensure_thumb-Quiet : (o : Option Bool) → Quiet (ensure_thumb images env source path size o)
    unfolding generate_thumb
    ensure_thumb-Quiet (some true) = pure-Quiet true
    ensure_thumb-Quiet (some false) = bind-Triple (stat-Quiet path) λ there. make_thumb-Quiet there
    ensure_thumb-Quiet none = pure-Quiet true

module _ {P : Type 0} (images : Images P) (env : Env) (user : User) (before : Database) where
  abbrev Same : Database → Type 0
  Same db = db ≡ before

  abbrev Ends : Text → Endpoint PhotoBody → Type 0
  Ends id m = Triple (λ db disk. Same db) (OwnPhoto user id before) (λ _ db disk. Same db) m

  -- The row that the queries find.
  abbrev Found : Text → FileRow → Assertion
  Found id row db disk = Same db × (find (is_photo id user.id) before.files ≡ some row)

  lookup_image-Found :
      (id : Text)
      → Triple (λ db disk. Same db) (OwnPhoto user id before) (Found id) (lookup_image user.id id)
  unfolding lookup_image
  lookup_image-Found id = bind-Triple (fetch-Triple _ _ (λ db disk p. p)) λ row.
      weaken (λ db disk p. (p.0, rw p.0 at p.1))
        (relax
          (pull
            λ e. relax (or_reply-Triple row _ (λ db disk p. p)) (λ a db disk p. (p.0, sym e ∙ p.1)))
          (λ a db disk p. p))

  -- The listing sends no bytes.
  list_handler-Ends : (limit offset : Text) → Ends [] (list_handler (some user) limit offset)
  unfolding list_handler authenticated
  list_handler-Ends limit offset = bind-Triple (or_reply-Triple (some user) _ (λ db disk p. p)) λ u.
      pull λ _. bind-Triple (fetch-Triple _ _ (λ db disk p. p)) λ rows.
        weaken (λ db disk p. p.0)
          (bind-Triple (scan_all-Triple rows _ (λ db disk p. p)) λ scanned.
            weaken (λ db disk p. p.0)
              (bind-Triple (query-Triple _ (λ db disk p. p) (λ db disk p. p))
                λ total. reply-Triple _ (λ db disk p. p)))

  full_handler-Ends : (id : Text) → Ends id (full_handler env (some user) id)
  unfolding full_handler authenticated
  full_handler-Ends id = bind-Triple (or_reply-Triple (some user) _ (λ db disk p. p)) λ u.
      pull λ (same : some user ≡ some u).
        let u_is : u ≡ user = cc same in
        rw u_is (
          bind-Triple (lookup_image-Found id) λ row. pull λ found.
            bind-Triple (open_file-Quiet Same (OwnPhoto user id before) env row.storage_path)
              λ opened. bind-Triple (or_reply-Triple opened _ (λ db disk p. p)) λ bytes.
                weaken (λ db disk p. p.0) (reply-Triple _ (λ db disk p. (p, (row, found)))))

  thumb_handler-Ends : (id size : Text) → Ends id (thumb_handler images env (some user) id size)
  unfolding thumb_handler authenticated
  thumb_handler-Ends id size =
      let E : Response PhotoBody → Assertion = OwnPhoto user id before in
      bind-Triple (or_reply-Triple (some user) _ (λ db disk p. p)) λ u.
        pull λ (same : some user ≡ some u).
          let u_is : u ≡ user = cc same in
          rw u_is (
            bind-Triple (lookup_image-Found id) λ row. pull λ found.
              bind-Triple (stat-Quiet Same E _) λ there.
                bind-Triple (ensure_thumb-Quiet Same E images env row.storage_path _ _ there)
                  λ made. bind-Triple (or_reply-Triple (confirmed made) _ (λ db disk p. p)) λ ok.
                    weaken (λ db disk p. p.0)
                      (bind-Triple (attempt-Quiet Same E) λ opened.
                        bind-Triple (given-Quiet Same E opened _ (read_disk-Quiet Same E _)) λ read.
                          bind-Triple (or_reply-Triple read _ (λ db disk p. p)) λ bytes.
                            weaken (λ db disk p. p.0)
                              (reply-Triple _ (λ db disk p. (p, (row, found))))))

  serve_photos-Ends : (r : PhotoRequest) → Ends (asked r) (serve_photos images env (some user) r)
  unfolding serve_photos
  serve_photos-Ends (list limit offset) = list_handler-Ends limit offset
  serve_photos-Ends (thumb id size) = thumb_handler-Ends id size
  serve_photos-Ends (full id) = full_handler-Ends id

-- Whichever calls fail, a request to the gallery leaves the tables as they were, and is answered
-- with bytes only where the identifier that it asks for is that of an image of the user.
pub serve_photos-OwnPhoto :
    {P : Type 0} (images : Images P) (env : Env) (user : User) (r : PhotoRequest) (w w' : World)
    (answer : Response PhotoBody)
    → serve_photos images env (some user) r w ≡ (stop answer, w')
    → OwnPhoto user (asked r) w.db answer w'.db w'.disk
serve_photos-OwnPhoto images env user r w w' answer h =
    rw h at ((serve_photos-Ends images env user w.db r).run w refl)
