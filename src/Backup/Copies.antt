-- ===== src/Backup/Copies.antt =====
-- What a restore brings back: the files that the extraction leaves below the temporary directory, and
-- the files that copying them leaves below the root.
use my_personal_cloud.Prelude.{
  ◌≡◌, ◌≢◌, refl, sym, ap, ◌∙◌, ◌==◌, eq_iff, eq_refl, eq_false, inl, inr, true, false, ◌||◌, not,
  List, [], ◌∷◌, some, Text, All, Bool-cases, any, map,
}
use my_personal_cloud.GoPath.{clean, join_path}
use my_personal_cloud.GoPath.Canonical.{IsPlain}
use my_personal_cloud.World.{Disk}
use my_personal_cloud.Storage.{rel_path, read_file}
use my_personal_cloud.Storage.Containment.{IsProperRoot}
use my_personal_cloud.Storage.Reading.{read-filter}
use my_personal_cloud.Backup.{Bytes}
use my_personal_cloud.Backup.Archive.{database_name, storage_name, below, walk}
use my_personal_cloud.Backup.Service.{remove_all}
use my_personal_cloud.Backup.Below.{under, below_proper, below_complete}
use my_personal_cloud.Backup.Places.{
  storage_name-IsPlain, database_name-IsPlain, under_injective, below-under, database_to,
  src-GoesOn, copied_to, below-src-tmp, database_not_storage,
}
use my_personal_cloud.Backup.Writes.{
  puts, read-puts, puts-All, read-All, paired, All-imp, walk-All, walk_complete,
}
use my_personal_cloud.Backup.Runs.{outputs, entry_of, copy_of, Copied}
use my_personal_cloud.Backup.Journey.{
  IsCleaned, IsFresh, IsApart, Stored, AtRoot, AtTmp, or_true, outputs-AtTmp, outputs_complete,
}

module _ (root tmp : Text) (proper_root : IsProperRoot root) (proper_tmp : IsProperRoot tmp)
    (apart : IsApart root tmp) (disk : Disk) where
  abbrev src : Text
  src = join_path tmp storage_name

  -- What the extraction writes: the database and the files.
  module _ (start : Disk) (cleaned : IsCleaned disk) (database : Bytes) (fresh : IsFresh tmp start)
      (files : List (Text × Bytes)) (all_files : map (λ f. f.0) files ≡ walk root disk)
      (at_root : All (λ f. AtRoot root disk f.0 f.1) files) where
    abbrev pub archived : List (Text × Bytes)
    archived = (join_path tmp database_name, database) ∷ outputs tmp (map (entry_of root) files)

    abbrev pub extracted : Disk
    extracted = puts archived start

    not_database :
        (vs : List Text)
        → All IsPlain vs
        → join_path tmp database_name ≢ under tmp (storage_name ∷ vs)
    not_database vs plain e =
        let same : database_name ∷ [] ≡ storage_name ∷ vs =
          under_injective tmp (database_name ∷ []) (storage_name ∷ vs) (database_name-IsPlain, tt)
            (storage_name-IsPlain, plain) (sym (database_to root tmp proper_root proper_tmp) ∙ e) in
        cc same

    pub extracted_database : read_file (join_path tmp database_name) extracted ≡ some database
    extracted_database =
        read-puts (join_path tmp database_name) database archived start
          (
            (λ e. refl),
            All-imp _ _ (outputs tmp (map (entry_of root) files))
                (λ f k e.
                  let (w, ws, (plain, r), q) = k in
                  absurd (not_database (w ∷ ws) plain (sym e ∙ q)))
                (outputs-AtTmp root tmp proper_root proper_tmp apart disk files at_root),
          )
          (inl (rw (eq_refl (join_path tmp database_name)) refl))

    -- A file of the storage is found below the temporary directory,
    extracted_file :
        (v : Text) (vs : List Text) (b : Bytes)
        → Stored root disk (v ∷ vs) b
        → read_file (under tmp (storage_name ∷ v ∷ vs)) extracted ≡ some b
    extracted_file v vs b (plain, r) =
        read-puts (under tmp (storage_name ∷ v ∷ vs)) b archived start
          (
            (λ e. absurd (not_database (v ∷ vs) plain e)),
            All-imp _ _ (outputs tmp (map (entry_of root) files))
                (λ f k e.
                  let (w, ws, (plain', r'), q) = k in
                  let same : storage_name ∷ w ∷ ws ≡ storage_name ∷ v ∷ vs =
                    under_injective tmp (storage_name ∷ w ∷ ws) (storage_name ∷ v ∷ vs)
                      (storage_name-IsPlain, plain') (storage_name-IsPlain, plain) (sym q ∙ e) in
                  same_content w ws v vs same r' r)
                (outputs-AtTmp root tmp proper_root proper_tmp apart disk files at_root),
          )
          (inl (
            rw
              (outputs_complete root tmp proper_root proper_tmp apart disk files v vs at_root plain
                (ap (any (λ p. p == under root (v ∷ vs))) all_files
                  ∙ walk_complete root (under root (v ∷ vs)) disk r (below-under root v vs plain)))
              (or_true _)))
      where
        same_content :
            {b' : Bytes} (w : Text) (ws : List Text) (v : Text) (vs : List Text)
            → storage_name ∷ w ∷ ws ≡ storage_name ∷ v ∷ vs
            → read_file (under root (w ∷ ws)) disk ≡ some b'
            → read_file (under root (v ∷ vs)) disk ≡ some b
            → b' ≡ b
        same_content w ws v vs e k l =
            let tails : w ∷ ws ≡ v ∷ vs = cc e in
            cc (sym k ∙ ap (λ xs. read_file (under root xs) disk) tails ∙ l)

    -- and nothing else is found where the storage is copied from.
    abbrev FromArchive : Text → Type 0
    FromArchive p = below src p ≡ true → (b : Bytes) × AtTmp root tmp disk p b

    old_file : (p : Text) → below tmp p ≡ false → FromArchive p
    old_file p e h = absurd (cc (sym e ∙ below-src-tmp root tmp proper_root proper_tmp p h))

    extracted_names : All (λ f. FromArchive f.0) extracted
    extracted_names =
        puts-All FromArchive archived start
          (
            (λ h. absurd (
                database_not_storage root tmp proper_root proper_tmp
                  (rw (← database_to root tmp proper_root proper_tmp) h))),
            All-imp _ _ (outputs tmp (map (entry_of root) files)) (λ f k h. (f.1, k))
                (outputs-AtTmp root tmp proper_root proper_tmp apart disk files at_root),
          )
          (All-imp _ _ start (λ f. old_file f.0) fresh)

    -- The files that Walk comes to when the storage is copied.
    pub copied_files :
        (found : List (Text × Bytes)) × (map (λ f. f.0) found ≡ walk src extracted)
        × All (λ f. AtTmp root tmp disk f.0 f.1) found
    copied_files = paired (AtTmp root tmp disk) (walk src extracted) (
        All-imp _ _ (walk src extracted) (λ p k. k.0 k.1)
          (walk-All FromArchive src extracted extracted_names))

    pub found-Copied :
        (found : List (Text × Bytes))
        → All (λ f. AtTmp root tmp disk f.0 f.1) found
        → All (Copied src root extracted) found
    found-Copied found h = All-imp _ _ found one h
      where
        one : (f : Text × Bytes) → AtTmp root tmp disk f.0 f.1 → Copied src root extracted f
        one (p, b) (w, ws, (plain, r), e) =
            let go = src-GoesOn root tmp proper_root proper_tmp w ws plain in
            let in_tmp : below tmp p ≡ true =
              rw e (below-under tmp storage_name (w ∷ ws) (storage_name-IsPlain, plain)) in
            (
              rw e (extracted_file w ws b (plain, r)),
              apart.1 p in_tmp,
              rw (e, copied_to root tmp proper_root proper_tmp w ws plain)
                  (below-under root w ws plain),
            )

    -- In the end the storage has every file that it had when the archive was made.
    module _ (found : List (Text × Bytes)) (all_found : map (λ f. f.0) found ≡ walk src extracted)
        (at_tmp : All (λ f. AtTmp root tmp disk f.0 f.1) found) where
      abbrev pub final : Disk
      final = remove_all tmp (puts (map (copy_of src root) found) extracted)

      copy_is :
          (p : Text) (w : Text) (ws : List Text)
          → All IsPlain (w ∷ ws)
          → p ≡ under tmp (storage_name ∷ w ∷ ws)
          → join_path root (rel_path src p) ≡ under root (w ∷ ws)
      copy_is p w ws plain e =
          ap (λ q. join_path root (rel_path src q)) e
          ∙ copied_to root tmp proper_root proper_tmp w ws plain

      copies_agree :
          (xs : List (Text × Bytes)) (v : Text) (vs : List Text) (b : Bytes)
          → All (λ f. AtTmp root tmp disk f.0 f.1) xs
          → Stored root disk (v ∷ vs) b
          → All (λ f. f.0 ≡ under root (v ∷ vs) → f.1 ≡ b) (map (copy_of src root) xs)
      copies_agree [] v vs b h stored = tt
      copies_agree ((p, content) ∷ xs) v vs b ((w, ws, (plain, r), e), h) stored = (
        (λ q.
            let there : under root (w ∷ ws) ≡ under root (v ∷ vs) =
              sym (copy_is p w ws plain e) ∙ q in
            cc (sym r ∙ ap (λ t. read_file t disk) there ∙ stored.1)),
        copies_agree xs v vs b h stored,
      )

      copies_complete :
          (xs : List (Text × Bytes)) (v : Text) (vs : List Text)
          → All IsPlain (v ∷ vs)
          → any (λ p. p == under tmp (storage_name ∷ v ∷ vs)) (map (λ f. f.0) xs) ≡ true
          → any (λ f. f.0 == under root (v ∷ vs)) (map (copy_of src root) xs) ≡ true
      copies_complete [] v vs plain e = absurd (cc e)
      copies_complete ((p, content) ∷ xs) v vs plain e =
          elim (Bool-cases (p == under tmp (storage_name ∷ v ∷ vs))) [
            | inl q ↦
                let here : (join_path root (rel_path src p) == under root (v ∷ vs)) ≡ true =
                  (eq_iff _ _).1 (copy_is p v vs plain ((eq_iff _ _).0 q)) in
                rw here refl
            | inr q ↦ rw (copies_complete xs v vs plain (rw q at e)) (or_true _)
          ]

      pub brought_back :
          (path : Text) (bytes : Bytes)
          → below root path ≡ true
          → read_file path disk ≡ some bytes
          → read_file path final ≡ some bytes
      unfolding remove_all
      brought_back path bytes h r =
          let k : clean path ≡ path = read-All (λ p. clean p ≡ p) path disk cleaned r in
          let (v, vs, e, plain) = below_proper root path proper_root k h in
          let stored : read_file (under root (v ∷ vs)) disk ≡ some bytes = rw (← e) r in
          let q : Text = under tmp (storage_name ∷ v ∷ vs) in
          let (g, f) = src-GoesOn root tmp proper_root proper_tmp v vs plain in
          let found_there : any (λ p. p == q) (map (λ f. f.0) found) ≡ true =
            ap (any (λ p. p == q)) all_found
            ∙ walk_complete src q extracted (extracted_file v vs bytes (plain, stored))
                (below_complete src q v vs (g, f)) in
          let copied : read_file path (puts (map (copy_of src root) found) extracted) ≡ some bytes =
            rw e (
              read-puts (under root (v ∷ vs)) bytes (map (copy_of src root) found) extracted
                (copies_agree found v vs bytes at_tmp (plain, stored))
                (inl (copies_complete found v vs plain found_there))) in
          let not_tmp : (path == tmp) ≡ false =
            eq_false path tmp (λ s. cc (sym apart.0 ∙ ap (below root) (sym s) ∙ h)) in
          let outside : below tmp path ≡ false = not_below path h in
          read-filter (λ file. not (file.0 == tmp || below tmp file.0)) path
            (puts (map (copy_of src root) found) extracted) (λ b. rw (not_tmp, outside) refl)
          ∙ copied
        where
          not_below : (path : Text) → below root path ≡ true → below tmp path ≡ false
          not_below path h = elim (Bool-cases (below tmp path)) [
            | inl e ↦ absurd (cc (sym (apart.1 path e) ∙ h))
            | inr e ↦ e
          ]
