-- ===== src/Backup/Site.antt =====
-- The state that backups see, internal/backup/holder.go and the struct Service of
-- internal/backup/backup.go: the world, whose tables are what the connection to the database reads,
-- the file of the database, its write-ahead log, and the connections.
use my_personal_cloud.Prelude.{Bool, true, false, []}
use my_personal_cloud.World.{World, error, Outcome, stop, next, Handler, or_reply}
use my_personal_cloud.Backup.{Bytes}
use my_personal_cloud.Backup.Archive.{Packages, try_call}

-- `log`: the file that SQLite keeps beside the database in the journal mode WAL, [] where it is empty
-- or missing. `holder_open`: whether the connection of the DBHolder is open. `services_open`: whether the
-- connection is that the other services got at the start. `restart_ch`: whether RestartCh is set.
-- `restarting`: whether it has received a signal.
pub record Site : Type 0 where
  pub world : World
  pub database_file : Bytes
  pub log : Bytes
  pub holder_open : Bool
  pub services_open : Bool
  pub restart_ch : Bool
  pub restarting : Bool

abbrev pub Step : Type 0 → Type 0 → Type 0
Step B A = Site → Outcome B A × Site

module _ {B : Type 0} where
  abbrev pub continued : {A C : Type 0} → Outcome B A × Site → (A → Step B C) → Outcome B C × Site
  continued (stop r, s) k = (stop r, s)
  continued (next a, s) k = k a s

  infixl 5 ◌>>=◌ ◌>>◌
  unfoldable pub ◌>>=◌ : {A C : Type 0} → Step B A → (A → Step B C) → Step B C
  ◌>>=◌ m k s = continued (m s) k

  abbrev pub ◌>>◌ : {A C : Type 0} → Step B A → Step B C → Step B C
  m >> k = m >>= λ _. k

  abbrev pub moved : {A : Type 0} → Site → Outcome B A × World → Outcome B A × Site
  moved s (o, w) = (o, record s { world = w })

  unfoldable pub on_world : {A : Type 0} → Handler B A → Step B A
  on_world m s = moved s (m s.world)

  unfoldable pub change : (Site → Site) → Step B (Unit {0})
  change f s = (next tt, f s)

  unfoldable pub database_file_of : Step B Bytes
  database_file_of s = (next s.database_file, s)

  -- `DBHolder.Replace`, with `reopenSQLite`. `Close` closes the connection also where it returns an
  -- error; the log is then left as it is.
  unfoldable pub replace : Packages → Step B (Unit {0})
  replace out = do
    change (λ s. record s { holder_open = false; services_open = false })
    on_world (try_call (error 400 "reopen database"))
    change (λ s. record s { database_file = out.closed s.log s.database_file; log = [] })
    on_world (try_call (error 400 "reopen database"))
    file ← database_file_of
    db ← on_world (or_reply (out.open_database file) (error 400 "reopen database"))
    change (λ s. record s { world = record s.world { db = db }; holder_open = true })
