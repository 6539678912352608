-- ===== src/Backup/Settled.antt =====
-- What RestoreHandler has done when it answers, whichever calls fail.
use my_personal_cloud.Prelude.{
  ℕ, ◌≡◌, refl, ◌⊎◌, inl, inr, true, false, ◌||◌, List, Option, none, some, Text, String, All,
}
use my_personal_cloud.GoPath.{join_path}
use my_personal_cloud.World.{Disk, error, json, Outcome, stop, next, or_reply, reply}
use my_personal_cloud.Auth.{User}
use my_personal_cloud.Backup.{Bytes, Crypto}
use my_personal_cloud.Backup.Archive.{Entry, Packages}
use my_personal_cloud.Backup.Site.{Site, Step, ◌>>=◌, on_world, change}
use my_personal_cloud.Backup.Leads.{After, Leads, bind-Leads}
use my_personal_cloud.Backup.Service.{
  BackupBody, restored, BackupForm, invalid_upload, no_file, uploaded, remove_all, restored_from,
  restore_handler, given_of, signalled,
}
use my_personal_cloud.Backup.Calls.{an_error, Writable, IsArchive}
use my_personal_cloud.Backup.Outcomes.{
  Answer, SameTables, Kept, Failed, Reopened, restore_backup-Leads,
}

module _ (out : Packages) (start : Site) (D : Disk → Type 0) where
  -- The tables are those of the file of the database, and main is told to restart.
  abbrev pub Succeeded : Answer → Site → Type 0
  Succeeded r s =
      (r ≡ json 200 restored)
      × (s.services_open ≡ false)
      × (s.holder_open ≡ true)
      × (out.open_database s.database_file ≡ some s.world.db)
      × (s.restarting ≡ (start.restarting || start.restart_ch))

  abbrev pub Settled : Outcome BackupBody (Unit {0}) × Site → Type 0
  Settled x = (r : Answer) × (x.0 ≡ stop r) × (Succeeded r x.1 ⊎ Failed out start D r x.1)

  module _ (c : Crypto) (jwt_secret : Bytes) (root tmp : Text)
      (removes : (disk : Disk) → D disk → D (remove_all tmp disk)) where
    -- What the extraction of the archive that is sent writes keeps the tables and `D`.
    abbrev pub Harmless : BackupForm → Type 0
    Harmless invalid_upload = Unit
    Harmless no_file = Unit
    Harmless (uploaded file passkey) =
        (entries : List Entry)
        → IsArchive c jwt_secret out (given_of passkey) file entries
        → All (λ e. Writable (SameTables out start D) (join_path tmp e.name)) entries

    abbrev Final : Answer → Site → Type 0
    Final r s = Succeeded r s ⊎ Failed out start D r s

    weakened :
        {A : Type 0} (Q : A → Site → Type 0) (x : Outcome BackupBody A × Site)
        → After (Failed out start D) Q x
        → After Final Q x
    weakened Q (stop r, s) h = inr h
    weakened Q (next a, s) h = h

    widen :
        {A : Type 0} {Q : A → Site → Type 0} {m : Step BackupBody A}
        → Leads (Kept out start D) (Failed out start D) Q m
        → Leads (Kept out start D) Final Q m
    widen {Q} {m} t = record { run = λ s h. weakened Q (m s) (t.run s h) }

    abbrev Nothing : {A : Type 0} → A → Site → Type 0
    Nothing a s = ⊥

    refused :
        (code : ℕ) (message : String)
        → Leads
            (Kept out start D)
            Final
            Nothing
            (on_world (reply {A = Unit {0}} (error code message)))
    unfolding on_world reply
    refused code message = record { run = λ s h. inr (an_error code message, inl h) }

    told :
        Leads
          (Reopened out start D)
          Final
          Nothing
          (change signalled >>= λ _. on_world (reply {A = Unit {0}} (json 200 restored)))
    unfolding change on_world reply ◌>>=◌
    told = record {
      run = λ s h.
          let same : (s.restarting || s.restart_ch) ≡ (start.restarting || start.restart_ch) =
            rw (h.0.1, h.0.2) refl in
          inl (refl, h.0.0, h.1, h.2, same);
    }

    restored_from-Leads :
        (form : BackupForm)
        → Harmless form
        → Leads (Kept out start D) Final Nothing (restored_from c jwt_secret out root tmp form)
    restored_from-Leads invalid_upload h = refused 400 "invalid upload"
    restored_from-Leads no_file h = refused 400 "file field required"
    restored_from-Leads (uploaded file passkey) h =
        bind-Leads
          (widen (
            restore_backup-Leads out start D c jwt_secret root tmp removes (given_of passkey) file
              h))
          λ _. told

    restore_handler-Leads :
        (user : Option User) (form : BackupForm)
        → Harmless form
        → Leads
            (Kept out start D)
            Final
            Nothing
            (restore_handler c jwt_secret out root user tmp form)
    unfolding restore_handler on_world or_reply
    restore_handler-Leads none form h = bind-Leads {Q = Nothing {A = User}} nobody λ user. never
      where
        nobody :
            Leads
              (Kept out start D)
              Final
              (Nothing {A = User})
              (on_world (or_reply none (error 401 "unauthorized")))
        nobody = record { run = λ s h. inr (an_error _ _, inl h) }

        never : {A : Type 0} {m : Step BackupBody A} → Leads (λ s. ⊥) Final Nothing m
        never = record { run = λ s h. absurd h }
    restore_handler-Leads (some user) form h =
        bind-Leads {Q = λ _. (Kept out start D)} somebody λ _. restored_from-Leads form h
      where
        somebody :
            Leads
              (Kept out start D)
              Final
              (λ _. (Kept out start D))
              (on_world (or_reply (some user) (error 401 "unauthorized")))
        somebody = record { run = λ s h. h }

    settled : (x : Outcome BackupBody (Unit {0}) × Site) → After Final Nothing x → Settled x
    settled (stop r, s) h = (r, refl, h)
    settled (next a, s) h = absurd h

    pub restore_handler-Settled :
        D start.world.disk
        → (user : Option User) (form : BackupForm) → Harmless form
        → Settled (restore_handler c jwt_secret out root user tmp form start)
    restore_handler-Settled d user form h = settled _ (
        (restore_handler-Leads user form h).run start
          (((refl, refl, refl, refl, refl), refl), (refl, d)))
