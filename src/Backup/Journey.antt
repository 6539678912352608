-- ===== src/Backup/Journey.antt =====
-- The files of the storage on their way through an archive: what the extraction of an archive that
-- `buildZip` has made writes.
use my_personal_cloud.Prelude.{
  ◌≡◌, refl, sym, ap, ◌∙◌, ◌==◌, eq_iff, inl, inr, Bool, true, false, ◌||◌, List, [], ◌∷◌, some,
  Text, All, Bool-cases, any, map,
}
use my_personal_cloud.GoPath.{join, clean, join_path}
use my_personal_cloud.GoPath.Canonical.{IsPlain}
use my_personal_cloud.World.{Disk}
use my_personal_cloud.Storage.{rel_path, read_file}
use my_personal_cloud.Storage.Containment.{IsProperRoot}
use my_personal_cloud.Backup.{Bytes}
use my_personal_cloud.Backup.Archive.{Entry, storage_name, below, walk}
use my_personal_cloud.Backup.Below.{under, below_proper}
use my_personal_cloud.Backup.Places.{
  storage_name-IsPlain, is_directory-join, under_injective, entry_name, extracted_to,
}
use my_personal_cloud.Backup.Writes.{readable, paired, All-imp, walk-All}
use my_personal_cloud.Backup.Runs.{outputs, entry_of}

-- Every path of the disk is cleaned, as the paths that the code makes are.
abbrev pub IsCleaned : Disk → Type 0
IsCleaned = All (λ f. clean f.0 ≡ f.0)

-- Nothing is below the directory.
abbrev pub IsFresh : Text → Disk → Type 0
IsFresh dir = All (λ f. below dir f.0 ≡ false)

-- Neither of the directories is below the other.
abbrev pub IsApart : Text → Text → Type 0
IsApart root tmp =
    (below root tmp ≡ false) × ((p : Text) → below tmp p ≡ true → below root p ≡ false)

-- The disk has the file with these elements below the root.
abbrev pub Stored : Text → Disk → List Text → Bytes → Type 0
Stored root disk ws bytes = All IsPlain ws × (read_file (under root ws) disk ≡ some bytes)

pub or_true : (b : Bool) → (b || true) ≡ true
or_true true = refl
or_true false = refl

-- A file of the storage, at its place, in the archive's directory.
abbrev pub AtRoot : Text → Disk → Text → Bytes → Type 0
AtRoot root disk p b =
    (w : Text) × (ws : List Text) × Stored root disk (w ∷ ws) b × (p ≡ under root (w ∷ ws))

abbrev pub AtTmp : Text → Text → Disk → Text → Bytes → Type 0
AtTmp root tmp disk p b =
    (w : Text) × (ws : List Text) × Stored root disk (w ∷ ws) b
    × (p ≡ under tmp (storage_name ∷ w ∷ ws))

module _ (root tmp : Text) (proper_root : IsProperRoot root) (proper_tmp : IsProperRoot tmp)
    (apart : IsApart root tmp) (disk : Disk) where
  -- The files that Walk comes to when the archive is made.
  pub stored_files :
      IsCleaned disk
      → (files : List (Text × Bytes)) × (map (λ f. f.0) files ≡ walk root disk)
        × All (λ f. AtRoot root disk f.0 f.1) files
  stored_files cleaned = paired (AtRoot root disk) (walk root disk) (
      All-imp _ _ (walk root disk) placed (
        walk-All (λ p. (clean p ≡ p) × ((b : Bytes) × (read_file p disk ≡ some b))) root disk both))
    where
      placed :
          (p : Text)
          → ((clean p ≡ p) × ((b : Bytes) × (read_file p disk ≡ some b))) × (below root p ≡ true)
          → (b : Bytes) × AtRoot root disk p b
      placed p ((k, (b, r)), h) =
          let (w, ws, e, plain) = below_proper root p proper_root k h in
          (b, (w, ws, (plain, rw (← e) r), e))

      both : All (λ f. (clean f.0 ≡ f.0) × ((b : Bytes) × (read_file f.0 disk ≡ some b))) disk
      both = All-both disk cleaned (readable disk)
        where
          All-both :
              (xs : Disk)
              → All (λ f. clean f.0 ≡ f.0) xs
              → All (λ f. (b : Bytes) × (read_file f.0 disk ≡ some b)) xs
              → All (λ f. (clean f.0 ≡ f.0) × ((b : Bytes) × (read_file f.0 disk ≡ some b))) xs
          All-both [] h k = tt
          All-both (x ∷ xs) h k = ((h.0, k.0), All-both xs h.1 k.1)

  pub stored_readable :
      (files : List (Text × Bytes))
      → All (λ f. AtRoot root disk f.0 f.1) files
      → All (λ f. read_file f.0 disk ≡ some f.1) files
  stored_readable files h = All-imp _ _ files (λ f k. let (w, ws, (plain, r), e) = k in rw e r) h

  -- The extraction writes each of them below the directory of the archive,
  pub outputs_one :
      (p : Text) (b : Bytes) (w : Text) (ws : List Text) (rest : List Entry)
      → All IsPlain (w ∷ ws)
      → p ≡ under root (w ∷ ws)
      → outputs tmp (entry_of root (p, b) ∷ rest)
        ≡ (under tmp (storage_name ∷ w ∷ ws), b) ∷ outputs tmp rest
  unfolding outputs
  outputs_one p b w ws rest plain e =
      let name : join_path storage_name (rel_path root p) ≡ join (storage_name ∷ w ∷ ws) =
        ap (λ q. join_path storage_name (rel_path root q)) e
        ∙ entry_name root tmp proper_root proper_tmp w ws plain in
      rw
        (
          name,
          is_directory-join storage_name (w ∷ ws) (storage_name-IsPlain, plain),
          extracted_to root tmp proper_root proper_tmp w ws plain,
        )
        refl

  pub outputs-AtTmp :
      (files : List (Text × Bytes))
      → All (λ f. AtRoot root disk f.0 f.1) files
      → All (λ f. AtTmp root tmp disk f.0 f.1) (outputs tmp (map (entry_of root) files))
  unfolding outputs
  outputs-AtTmp [] h = tt
  outputs-AtTmp ((p, b) ∷ files) ((w, ws, stored, e), h) =
      rw (outputs_one p b w ws (map (entry_of root) files) stored.0 e)
        ((w, ws, stored, refl), outputs-AtTmp files h)

  pub outputs_complete :
      (files : List (Text × Bytes)) (v : Text) (vs : List Text)
      → All (λ f. AtRoot root disk f.0 f.1) files
      → All IsPlain (v ∷ vs)
      → any (λ p. p == under root (v ∷ vs)) (map (λ f. f.0) files) ≡ true
      → any
          (λ f. f.0 == under tmp (storage_name ∷ v ∷ vs))
          (outputs tmp (map (entry_of root) files))
        ≡ true
  outputs_complete [] v vs h plain e = absurd (cc e)
  outputs_complete ((p, b) ∷ files) v vs ((w, ws, stored, f), h) plain e =
      rw (outputs_one p b w ws (map (entry_of root) files) stored.0 f)
        (elim (Bool-cases (p == under root (v ∷ vs))) [
          | inl q ↦
              let same : w ∷ ws ≡ v ∷ vs =
                under_injective root (w ∷ ws) (v ∷ vs) stored.0 plain
                  (sym f ∙ (eq_iff p (under root (v ∷ vs))).0 q) in
              let there : (under tmp (storage_name ∷ w ∷ ws) == under tmp (storage_name ∷ v ∷ vs))
                  ≡ true =
                (eq_iff _ _).1 (ap (λ xs. under tmp (storage_name ∷ xs)) same) in
              rw there refl
          | inr q ↦
              let rest = outputs_complete files v vs h plain (rw q at e) in rw rest (or_true _)
        ])
