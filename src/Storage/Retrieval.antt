-- ===== src/Storage/Retrieval.antt =====
-- What `Save` leaves on the disk.
use my_personal_cloud.Prelude.{
  ℕ, ◌≡◌, refl, Bool, true, false, List, Option, none, some, Text, eq_refl, length, if◌then◌else◌,
}
use my_personal_cloud.GoPath.{join_path}
use my_personal_cloud.GoPath.Canonical.{IsPlain}
use my_personal_cloud.Decimal.{decimal}
use my_personal_cloud.World.{Disk, Env, Response, Handler, new_uuid}
use my_personal_cloud.World.Triple.{Assertion, Triple, bind-Triple, pure-Triple, weaken}
use my_personal_cloud.Storage.{
  abs, rel_path, read_file, write_file, remove_file, attempt, change_disk, given, save,
}
use my_personal_cloud.Storage.Containment.{IsProperRoot}
use my_personal_cloud.Storage.Paths.{decimal-IsPlain, abs-rel_path}

-- The store holds the contents under a storage path.
abbrev pub Holds : Env → Text → List ℕ → Disk → Type 0
Holds env path content disk = read_file (abs env.storage_root path) disk ≡ some content

-- After an error nothing is known.
abbrev pub Saved : Env → List ℕ → Option (Text × ℕ) → Assertion
Saved env content none db disk = Unit
Saved env content (some kept) db disk = Holds env kept.0 content disk × (kept.1 ≡ length content)

abbrev Anything : Assertion
Anything db disk = Unit

pub read-write_file :
    (path : Text) (bytes : List ℕ) (disk : Disk)
    → read_file path (write_file path bytes disk) ≡ some bytes
unfolding read_file write_file
read-write_file path bytes disk = rw (eq_refl path) refl

module _ {B : Type 0} (env : Env) (proper : IsProperRoot env.storage_root)
    (plain : (n : ℕ) → IsPlain (env.uuid_of n)) where
  attempt-Triple : {P : Assertion} {E : Response B → Assertion} → Triple P E (λ _. P) attempt
  unfolding attempt
  attempt-Triple = record { run = λ w p. p }

  named : {E : Response B → Assertion} → Triple Anything E (λ name _ _. IsPlain name) (new_uuid env)
  unfolding new_uuid
  named = record { run = λ w p. plain w.uuids_used }

  given-Triple :
      {P : Assertion} {E : Response B → Assertion} {content : List ℕ} (b : Bool)
      (m : Handler B (Option (Text × ℕ)))
      → Triple P E (Saved env content) m
      → Triple P E (Saved env content) (given b m)
  given-Triple true m t = t
  given-Triple false m t = pure-Triple none (λ db disk p. tt)

  copied_file :
      {E : Response B → Assertion} (user_id : ℕ) (content : List ℕ) (name : Text) (copied : Bool)
      → IsPlain name
      → let dst = join_path (join_path env.storage_root (decimal user_id)) name in
        Triple Anything E
          (λ _.
            Saved env content
              (if copied then some (rel_path env.storage_root dst, length content) else none))
          (change_disk (if copied then write_file dst content else remove_file dst))
  unfolding change_disk
  copied_file user_id content name false h = record { run = λ w p. tt }
  copied_file user_id content name true h =
      let dst : Text = join_path (join_path env.storage_root (decimal user_id)) name in
      record {
        run = λ w p. (
          rw
              (abs-rel_path env.storage_root (decimal user_id) name proper (decimal-IsPlain user_id)
                h)
              (read-write_file dst content w.disk),
          refl,
        );
      }

  pub save-Triple :
      {P : Assertion} {E : Response B → Assertion} (user_id : ℕ) (content : List ℕ)
      → Triple P E (Saved env content) (save env user_id content)
  unfolding save
  save-Triple user_id content =
      bind-Triple (weaken {P' = Anything} (λ db disk p. tt) attempt-Triple) λ made.
        given-Triple made _ (
          bind-Triple named λ name. bind-Triple attempt-Triple λ created. given-Triple created _ (
            bind-Triple attempt-Triple λ copied.
              bind-Triple
                (record { run = λ w h. (copied_file user_id content name copied h).run w tt })
                λ _. pure-Triple _ (λ db disk p. p)))
