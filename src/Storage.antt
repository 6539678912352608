-- ===== src/Storage.antt =====
-- The store of file contents, internal/storage/storage.go. Directories are not part of the disk:
-- making one is a call that may fail.
pub mod Containment
pub mod Keeps
pub mod Paths
pub mod Reading
pub mod Retrieval
use my_personal_cloud.Prelude.{
  ℕ, ◌++◌, ◌==◌, Bool, true, false, not, ◌&&◌, List, [], ◌∷◌, Option, none, some, Text, codes,
  has_prefix, length, if◌then◌else◌, map,
}
use my_personal_cloud.GoPath.{slash, dot, dots, elements, is_rooted, render, clean, join_path}
use my_personal_cloud.Decimal.{decimal}
use my_personal_cloud.World.{
  Disk, Env, World, Outcome, next, Handler, ◌>>=◌, ◌>>◌, pure, new_uuid, next_fault, used,
}

abbrev pub invalid_name : Text
invalid_name = codes "_invalid"

-- `LocalStore.abs`
unfoldable pub abs : Text → Text → Text
abs root rel =
    let cleaned = join_path root rel in
    if not (has_prefix cleaned (clean root ++ slash ∷ [])) && not (cleaned == clean root)
    then join_path root invalid_name
    else cleaned

-- What is left of two lists of elements behind their common beginning.
unfoldable pub strip_common : List Text → List Text → List Text × List Text
strip_common [] ts = ([], ts)
strip_common (b ∷ bs) [] = (b ∷ bs, [])
strip_common (b ∷ bs) (t ∷ ts) = if b == t then strip_common bs ts else (b ∷ bs, t ∷ ts)

abbrev pub same_kind : Bool → Bool → Bool
same_kind true b = b
same_kind false b = not b

abbrev pub climb : List Text × List Text → Text
climb ([], ts) = render false ts
climb (b ∷ bs, ts) = if b == dots then [] else render false (map (λ _. dots) (b ∷ bs) ++ ts)

-- `filepath.Rel`, with the empty text for an error, which `Save` does not look at.
unfoldable pub rel_path : Text → Text → Text
rel_path base target =
    if same_kind (is_rooted base) (is_rooted target)
    then climb (strip_common (elements base) (elements target))
    else []

unfoldable pub read_file : Text → Disk → Option (List ℕ)
read_file path [] = none
read_file path ((p, bytes) ∷ disk) = if p == path then some bytes else read_file path disk

unfoldable pub remove_file : Text → Disk → Disk
remove_file path [] = []
remove_file path ((p, bytes) ∷ disk) =
    let rest = remove_file path disk in if p == path then rest else (p, bytes) ∷ rest

unfoldable pub write_file : Text → List ℕ → Disk → Disk
write_file path bytes disk = (path, bytes) ∷ remove_file path disk

module _ {B : Type 0} where
  -- A call of the file system: whether it succeeds.
  unfoldable pub attempt : Handler B Bool
  attempt w = (next (not (next_fault w.faults)), used w)

  unfoldable pub change_disk : (Disk → Disk) → Handler B (Unit {0})
  change_disk f w = (next tt, record w { disk = f w.disk })

  unfoldable pub read_disk : Text → Handler B (Option (List ℕ))
  read_disk path w = (next (read_file path w.disk), w)

  abbrev pub given : {A : Type 0} → Bool → Handler B (Option A) → Handler B (Option A)
  given true m = m
  given false m = pure none

  -- `LocalStore.Save`: the storage path and the size, or `none` for an error. When the copy fails
  -- the file is removed.
  unfoldable pub save : Env → ℕ → List ℕ → Handler B (Option (Text × ℕ))
  save env user_id content = do
    let dir = join_path env.storage_root (decimal user_id)
    made ← attempt
    given made do
      name ← new_uuid env
      let dst = join_path dir name
      created ← attempt
      given created do
        copied ← attempt
        change_disk (if copied then write_file dst content else remove_file dst)
        pure (if copied then some (rel_path env.storage_root dst, length content) else none)

  -- `LocalStore.Open`: the contents, or `none` for an error.
  unfoldable pub open_file : Env → Text → Handler B (Option (List ℕ))
  open_file env path = do opened ← attempt; given opened (read_disk (abs env.storage_root path))

  -- `LocalStore.Delete`, whose result no caller looks at. A file that is not there is no error.
  unfoldable pub delete_file : Env → Text → Handler B (Unit {0})
  delete_file env path = do
    removed ← attempt
    change_disk (λ disk. if removed then remove_file (abs env.storage_root path) disk else disk)
