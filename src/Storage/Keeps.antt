-- ===== src/Storage/Keeps.antt =====
-- The store never touches the database, and on the disk only the files that it is asked for.
use my_personal_cloud.Prelude.{
  ℕ, ◌≡◌, Bool, true, false, List, Option, none, some, Text, if◌then◌else◌,
}
use my_personal_cloud.Decimal.{decimal}
use my_personal_cloud.GoPath.{join_path}
use my_personal_cloud.World.{Database, Disk, Env, Handler, ◌>>=◌, pure}
use my_personal_cloud.World.Keeps.{Any, Guards, bind-Keeps, pure-Keeps, new_uuid-Keeps}
use my_personal_cloud.Storage.{
  attempt, change_disk, read_disk, given, save, open_file, delete_file, abs, rel_path, write_file,
  remove_file,
}

-- Where the contents of an upload of the user are put.
abbrev pub destination : Env → ℕ → ℕ → Text
destination env user_id k = join_path (join_path env.storage_root (decimal user_id)) (env.uuid_of k)

-- Removing what is stored at a path keeps `D`.
abbrev pub Erases : Env → (Disk → Type 0) → Text → Type 0
Erases env D path = (disk : Disk) → D disk → D (remove_file (abs env.storage_root path) disk)

-- Uploads of the user, and removing them again, keep `D`.
abbrev pub Accepts : Env → (Disk → Type 0) → ℕ → Type 0
Accepts env D user_id =
    (k : ℕ)
    → ((content : List ℕ) (disk : Disk)
        → D disk
        → D (write_file (destination env user_id k) content disk))
      × ((disk : Disk) → D disk → D (remove_file (destination env user_id k) disk))
      × Erases env D (rel_path env.storage_root (destination env user_id k))

abbrev pub IsSaved : Env → (Disk → Type 0) → Option (Text × ℕ) → Type 0
IsSaved env D none = Unit
IsSaved env D (some (path, size)) = Erases env D path

pub saved-Erases :
    (env : Env) (D : Disk → Type 0) (o : Option (Text × ℕ)) (x : Text × ℕ)
    → IsSaved env D o
    → o ≡ some x
    → Erases env D x.0
saved-Erases env D none x h e = absurd (cc e)
saved-Erases env D (some (path, size)) x h e = let same : (path, size) ≡ x = cc e in rw (← same) h

module _ {B : Type 0} {P : Database → Type 0} {D : Disk → Type 0} where
  pub attempt-Keeps : Guards P D Any (attempt {B = B})
  unfolding attempt
  attempt-Keeps = record { triple = record { run = λ w p. (p, tt) } }

  given-Keeps :
      {A : Type 0} {G : Option A → Type 0} (b : Bool) (m : Handler B (Option A))
      → G none
      → Guards P D G m
      → Guards P D G (given b m)
  given-Keeps true m g h = h
  given-Keeps false m g h = pure-Keeps none g

  change_disk-Keeps :
      (f : Disk → Disk)
      → ((disk : Disk) → D disk → D (f disk))
      → Guards P D Any (change_disk {B = B} f)
  unfolding change_disk
  change_disk-Keeps f h = record { triple = record { run = λ w p. ((p.0, h w.disk p.1), tt) } }

  read_disk-Keeps : (path : Text) → Guards P D Any (read_disk {B = B} path)
  unfolding read_disk
  read_disk-Keeps path = record { triple = record { run = λ w p. (p, tt) } }

  copied-Keeps :
      (env : Env) (user_id k : ℕ) (content : List ℕ) (size : ℕ) (copied : Bool)
      → Accepts env D user_id
      → Guards {B = B} P D (IsSaved env D) (
          change_disk (
            if copied
            then write_file (destination env user_id k) content
            else remove_file (destination env user_id k))
          >>= λ _. pure (
              if copied
              then some (rel_path env.storage_root (destination env user_id k), size)
              else none))
  copied-Keeps env user_id k content size true h =
      bind-Keeps (change_disk-Keeps _ ((h k).0 content)) λ _ _. pure-Keeps _ (h k).2
  copied-Keeps env user_id k content size false h =
      bind-Keeps (change_disk-Keeps _ (h k).1) λ _ _. pure-Keeps _ tt

  pub save-Keeps :
      (env : Env) (user_id : ℕ) (content : List ℕ)
      → Accepts env D user_id
      → Guards P D (IsSaved env D) (save {B = B} env user_id content)
  unfolding save
  save-Keeps env user_id content h = bind-Keeps attempt-Keeps λ made _. given-Keeps made _ tt (
      bind-Keeps (new_uuid-Keeps env) λ name (k, e). rw e (
        bind-Keeps attempt-Keeps λ created _.
          given-Keeps created _ tt
            (bind-Keeps attempt-Keeps λ copied _. copied-Keeps env user_id k content _ copied h)))

  pub open_file-Keeps : (env : Env) (path : Text) → Guards P D Any (open_file {B = B} env path)
  unfolding open_file
  open_file-Keeps env path =
      bind-Keeps attempt-Keeps λ opened _. given-Keeps opened _ tt (read_disk-Keeps _)

  pub delete_file-Keeps :
      (env : Env) (path : Text) → Erases env D path → Guards P D Any (delete_file {B = B} env path)
  unfolding delete_file
  delete_file-Keeps env path h =
      bind-Keeps attempt-Keeps λ removed _. change_disk-Keeps _ (removes removed)
    where
      removes :
          (removed : Bool) (disk : Disk)
          → D disk
          → D (if removed then remove_file (abs env.storage_root path) disk else disk)
      removes true disk d = h disk d
      removes false disk d = d
