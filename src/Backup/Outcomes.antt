-- ===== src/Backup/Outcomes.antt =====
-- What a restore has done when it answers, whichever calls fail.
use my_personal_cloud.Prelude.{
  ◌≡◌, refl, sym, ap, ◌∙◌, ◌⊎◌, inl, inr, true, false, List, [], Option, some, Text, All,
  Bool-cases,
}
use my_personal_cloud.GoPath.{join_path}
use my_personal_cloud.World.{
  Database, Disk, World, Response, Outcome, stop, next, Handler, next_fault,
}
use my_personal_cloud.World.Triple.{Assertion, Triple, or_reply-Triple}
use my_personal_cloud.Backup.{Bytes, Crypto}
use my_personal_cloud.Backup.Archive.{Entry, Packages}
use my_personal_cloud.Backup.Site.{Site, Step, on_world, change, replace}
use my_personal_cloud.Backup.Leads.{
  After, Leads, bind-Leads, on_world-Leads, change-Leads, After-relax, relax-Leads, pull-Leads,
  weaken-Leads, file_of-Leads,
}
use my_personal_cloud.Backup.Service.{
  BackupBody, remove_all, cleared, cleaned, with_temp, copy_database, write_over, restore_archive,
  restore_backup,
}
use my_personal_cloud.Backup.Copying.{copy_storage}
use my_personal_cloud.Backup.Calls.{
  IsError, an_error, Fails, Writable, IsArchive, try_call-Triple, try_read-Triple, extract-Triple,
  validate_sqlite-Triple, copy_storage-Triple, read_archive-Triple,
}

abbrev pub Answer : Type 0
Answer = Response BackupBody

cleared-After :
    {A : Type 0} (E : Answer → Site → Type 0) (Q : A → Site → Type 0) (tmp : Text)
    (x : Outcome BackupBody A × Site)
    → ((r : Answer) (s : Site) → E r s → E r (record s { world = cleaned tmp s.world }))
    → ((a : A) (s : Site) → Q a s → Q a (record s { world = cleaned tmp s.world }))
    → After E Q x
    → After E Q (cleared tmp x)
cleared-After E Q tmp (stop r, s) e q h = e r s h
cleared-After E Q tmp (next a, s) e q h = q a s h

module _ {A : Type 0} {P : Site → Type 0} {E : Answer → Site → Type 0} {Q : A → Site → Type 0} where
  with_temp-Leads :
      {m : Step BackupBody A} (tmp : Text)
      → ((r : Answer) (s : Site) → E r s → E r (record s { world = cleaned tmp s.world }))
      → ((a : A) (s : Site) → Q a s → Q a (record s { world = cleaned tmp s.world }))
      → Leads P E Q m
      → Leads P E Q (with_temp tmp m)
  unfolding with_temp
  with_temp-Leads {m} tmp e q t = record {
    run = λ s h. cleared-After E Q tmp (m s) e q (t.run s h);
  }

-- `D` is what is kept of the disk until the tables are replaced.
module _ (out : Packages) (start : Site) (D : Disk → Type 0) where
  -- The connections, the log and the signal are as at the start.
  abbrev pub SameLinks : Site → Type 0
  SameLinks s =
      (s.holder_open ≡ start.holder_open)
      × (s.services_open ≡ start.services_open)
      × (s.restart_ch ≡ start.restart_ch)
      × (s.restarting ≡ start.restarting)
      × (s.log ≡ start.log)

  -- The same, and the file of the database.
  abbrev pub Untouched : Site → Type 0
  Untouched s = SameLinks s × (s.database_file ≡ start.database_file)

  abbrev pub SameTables : Assertion
  SameTables db disk = (db ≡ start.world.db) × D disk

  -- The tables are those of before, and so is what the other services hold.
  abbrev pub Kept : Site → Type 0
  Kept s = Untouched s × SameTables s.world.db s.world.disk

  -- What the open connection reads once the file is truncated, and once it has been written.
  abbrev pub after_truncation : Database
  after_truncation = out.read_over start.world.db start.log []

  abbrev pub after_writing : Bytes → Database
  after_writing content = out.read_over after_truncation start.log content

  -- The file of the database was truncated or written over under the open connection.
  abbrev pub Overwritten : Site → Type 0
  Overwritten s =
      SameLinks s
      × (((s.database_file ≡ []) × (s.world.db ≡ after_truncation))
          ⊎ (s.world.db ≡ after_writing s.database_file))
      × D s.world.disk

  -- The connection of the other services is closed, and nobody was told to restart.
  abbrev pub Stranded : Site → Type 0
  Stranded s =
      (s.services_open ≡ false)
      × (s.restart_ch ≡ start.restart_ch)
      × (s.restarting ≡ start.restarting)

  -- The tables are those of the file of the database, on a new connection.
  abbrev pub Reopened : Site → Type 0
  Reopened s =
      Stranded s × (s.holder_open ≡ true) × (out.open_database s.database_file ≡ some s.world.db)

  abbrev pub Failed : Answer → Site → Type 0
  Failed r s = IsError r × (Kept s ⊎ (Overwritten s ⊎ Stranded s))

  kept_failure :
      (r : Answer) (s : Site)
      → Untouched s
      → Fails SameTables r s.world.db s.world.disk
      → Failed r s
  kept_failure r s h f = (f.0, inl (h, f.1))

  -- A handler before the tables are replaced.
  early :
      {A : Type 0} {m : Handler BackupBody A}
      → Triple SameTables (Fails SameTables) (λ _. SameTables) m
      → Leads Kept Failed (λ _. Kept) (on_world m)
  early t = on_world-Leads Untouched (λ s w h. h) kept_failure t

  -- The file of the database has these bytes, and the connection reads these tables.
  abbrev Holding : Bytes → Site → Type 0
  Holding file s = SameLinks s × (s.database_file ≡ file)

  abbrev Reads : Database → Assertion
  Reads db' db disk = (db ≡ db') × D disk

  abbrev Truncated : Site → Type 0
  Truncated s = Holding [] s × Reads after_truncation s.world.db s.world.disk

  abbrev Written : Bytes → Site → Type 0
  Written content s = Holding content s × Reads (after_writing content) s.world.db s.world.disk

  Truncated-Overwritten : (s : Site) → Truncated s → Overwritten s
  Truncated-Overwritten s h = (h.0.0, inl (h.0.1, h.1.0), h.1.1)

  Written-Overwritten : (content : Bytes) (s : Site) → Written content s → Overwritten s
  Written-Overwritten content s h = (h.0.0, inr (h.1.0 ∙ ap after_writing (sym h.0.1)), h.1.1)

  truncated : Leads {B = BackupBody} Kept Failed (λ _. Truncated) (change (write_over out []))
  unfolding write_over
  truncated = change-Leads _ λ s h. (
    (h.0.0, refl),
    (
      ap (λ db. out.read_over db s.log []) h.1.0
          ∙ ap (λ l. out.read_over start.world.db l []) h.0.0.4,
      h.1.1,
    ),
  )

  written :
      (content : Bytes)
      → Leads {B = BackupBody} Truncated Failed
          (λ _. Written content)
          (change (write_over out content))
  unfolding write_over
  written content = change-Leads _ λ s h. (
    (h.0.0, refl),
    (
      ap (λ db. out.read_over db s.log content) h.1.0
          ∙ ap (λ l. out.read_over after_truncation l content) h.0.0.4,
      h.1.1,
    ),
  )

  -- A call while the file of the database is not the one of before.
  overwriting :
      {file : Bytes} {db' : Database} {m : Handler BackupBody (Unit {0})}
      → ((s : Site) → Holding file s × Reads db' s.world.db s.world.disk → Overwritten s)
      → Triple (Reads db') (Fails (Reads db')) (λ _. Reads db') m
      → Leads
          (λ s. Holding file s × Reads db' s.world.db s.world.disk)
          Failed
          (λ _ s. Holding file s × Reads db' s.world.db s.world.disk)
          (on_world m)
  overwriting {file} over t =
      on_world-Leads (Holding file) (λ s w h. h) (λ r s h f. (f.0, inr (inl (over s (h, f.1))))) t

  copy_database-Leads :
      (tmp : Text) → Leads Kept Failed (λ _ s. SameLinks s) (copy_database out tmp)
  unfolding copy_database
  copy_database-Leads tmp = bind-Leads (early (try_read-Triple _ _ (an_error _ _))) λ content.
      bind-Leads (early (try_call-Triple _ (an_error _ _))) λ _.
        bind-Leads (early (try_call-Triple _ (an_error _ _))) λ _. bind-Leads truncated λ _.
          bind-Leads (overwriting Truncated-Overwritten (try_call-Triple _ (an_error _ _))) λ _.
            bind-Leads (written content) λ _.
              relax-Leads (λ a s h. h.0.0)
                (overwriting (Written-Overwritten content) (try_call-Triple _ (an_error _ _)))

  abbrev Anything : Assertion
  Anything db disk = Unit

  -- A handler behind the closing of the connection.
  late :
      {A : Type 0} {Q : A → Assertion} {m : Handler BackupBody A} (R : Site → Type 0)
      → ((s : Site) (w : World) → R s → R (record s { world = w }))
      → ((s : Site) → R s → Stranded s)
      → {P : Assertion} → Triple P (Fails P) Q m
      → Leads
          (λ s. R s × P s.world.db s.world.disk)
          Failed
          (λ a s. R s × Q a s.world.db s.world.disk)
          (on_world m)
  late R frame strands t = on_world-Leads R frame (λ r s h f. (f.0, inr (inr (strands s h)))) t

  replace-Leads : Leads SameLinks Failed (λ _. Reopened) (replace out)
  unfolding replace
  replace-Leads =
      bind-Leads (change-Leads {Q = λ s. Stranded s × Unit} _ (λ s h. ((refl, h.2, h.3), tt))) λ _.
        bind-Leads
          (late Stranded (λ s w h. h) (λ s h. h) {P = Anything} (try_call-Triple _ (an_error _ _)))
          λ _. bind-Leads (change-Leads {Q = λ s. Stranded s × Unit} _ (λ s h. h)) λ _.
            bind-Leads
              (late Stranded (λ s w h. h) (λ s h. h) {P = Anything}
                (try_call-Triple _ (an_error _ _)))
              λ _. file_of-Leads λ file.
                bind-Leads
                  (weaken-Leads {P = λ s. (Stranded s × (s.database_file ≡ file)) × Unit}
                    (λ s h. ((h.0.0, h.1), tt))
                    (late (λ s. Stranded s × (s.database_file ≡ file)) (λ s w h. h) (λ s h. h.0)
                      {P = Anything}
                      (or_reply-Triple (out.open_database file) _
                        (λ db disk p. (an_error _ _, p)))))
                  λ db. change-Leads _ (λ s h. (h.0.0, refl, ap out.open_database h.0.1 ∙ h.1.1))

  abbrev FileHolds : Database → Site → Type 0
  FileHolds db s =
      Stranded s × (s.holder_open ≡ true) × (out.open_database s.database_file ≡ some db)

  copy_storage-Leads :
      (tmp root : Text) → Leads Reopened Failed (λ _. Reopened) (on_world (copy_storage tmp root))
  copy_storage-Leads tmp root = record {
    run = λ s h.
        let db : Database = s.world.db in
        After-relax Failed (λ _ s. FileHolds db s × (s.world.db ≡ db)) (λ _. Reopened) _
          (λ a s k. (k.0.0, k.0.1, k.0.2 ∙ ap some (sym k.1)))
          ((late (FileHolds db) (λ s w k. k) (λ s k. k.0)
              (copy_storage-Triple {P = λ db' disk. db' ≡ db} tmp root
                (λ path db disk bytes e. e))).run
            s (h, refl));
  }

  module _ (c : Crypto) (jwt_secret : Bytes) (root tmp : Text)
      (removes : (disk : Disk) → D disk → D (remove_all tmp disk)) where
    cleaned_disk : (s : Site) → D s.world.disk → D (cleaned tmp s.world).disk
    cleaned_disk s h = elim (Bool-cases (next_fault s.world.faults)) [
      | inl e ↦ rw e h
      | inr e ↦ rw e (removes s.world.disk h)
    ]

    Failed-cleaned :
        (r : Answer) (s : Site) → Failed r s → Failed r (record s { world = cleaned tmp s.world })
    Failed-cleaned r s (e, inl (links, (same, d))) = (e, inl (links, (same, cleaned_disk s d)))
    Failed-cleaned r s (e, inr (inl (links, reads, d))) =
        (e, inr (inl (links, reads, cleaned_disk s d)))
    Failed-cleaned r s (e, inr (inr h)) = (e, inr (inr h))

    module _ (given : Option Text) (file : Bytes)
        (writes : (entries : List Entry)
          → IsArchive c jwt_secret out given file entries
          → All (λ e. Writable SameTables (join_path tmp e.name)) entries) where
      restore_archive-Leads :
          (entries : List Entry)
          → IsArchive c jwt_secret out given file entries
          → Leads Kept Failed (λ _. Reopened) (restore_archive out root tmp entries)
      unfolding restore_archive
      restore_archive-Leads entries h =
          bind-Leads (early (extract-Triple tmp entries (writes entries h))) λ _.
            bind-Leads (early (validate_sqlite-Triple tmp)) λ _.
              bind-Leads (copy_database-Leads tmp)
                λ _. bind-Leads replace-Leads λ _. copy_storage-Leads tmp root

      pub restore_backup-Leads :
          Leads Kept Failed (λ _. Reopened) (restore_backup c jwt_secret out root tmp given file)
      unfolding restore_backup
      restore_backup-Leads =
          bind-Leads
            (on_world-Leads Untouched (λ s w h. h) kept_failure
              (read_archive-Triple c jwt_secret out given file))
            λ entries.
              weaken-Leads (λ s h. ((h.0, h.1.0), h.1.1))
                (pull-Leads λ (archive : IsArchive c jwt_secret out given file entries).
                  bind-Leads (early (try_call-Triple _ (an_error _ _))) λ _.
                    with_temp-Leads tmp Failed-cleaned (λ a s h. h)
                      (restore_archive-Leads entries archive))
