-- ===== src/Server/Backups.antt =====
-- The routes of backups in cmd/server/main.go: both need a token, and no limiter stands before them.
use my_personal_cloud.Prelude.{
  ◌≡◌, refl, ◌⊎◌, inl, inr, false, Option, some, Text, String, has_prefix, Bool-cases, Option-cases,
}
use my_personal_cloud.World.{
  World, Outcome, stop, next, error, ◌>>=◌, pure, require, or_reply, clock,
}
use my_personal_cloud.Auth.Tokens.{Library, Service, TokenUser, parse_token}
use my_personal_cloud.Auth.Service.{bearer, credentials, middleware}
use my_personal_cloud.Backup.{Bytes, Crypto}
use my_personal_cloud.Backup.Archive.{Packages}
use my_personal_cloud.Backup.Site.{Site, Step}
use my_personal_cloud.Backup.Service.{BackupBody, BackupForm, create_handler, restore_handler}
use my_personal_cloud.Backup.Settled.{Settled}
use my_personal_cloud.Backup.Restoring.{AnyDisk, restore_settles}
use my_personal_cloud.Server.{Carried, as_user}
use my_personal_cloud.Server.Guard.{sent}

abbrev passed_on :
    Site
    → Outcome BackupBody TokenUser × World
    → (TokenUser → Step BackupBody (Unit {0}))
    → Outcome BackupBody (Unit {0}) × Site
passed_on s (stop r, w) served = (stop r, record s { world = w })
passed_on s (next user, w) served = served user (record s { world = w })

module _ (lib : Library) (service : Service) (c : Carried) (crypto : Crypto) (jwt_secret : Bytes)
    (out : Packages) (root : Text) where
  unfoldable pub guarded : (TokenUser → Step BackupBody (Unit {0})) → Step BackupBody (Unit {0})
  guarded served s =
      passed_on s (middleware lib service c.authorization false c.token pure s.world) served

  unfoldable pub route_create :
      Option Text → Option Bytes → Option Bytes → Step BackupBody (Unit {0})
  route_create body salt random =
      guarded
        λ user. create_handler crypto jwt_secret out root (some (as_user user)) body salt random

  unfoldable pub route_restore : Text → BackupForm → Step BackupBody (Unit {0})
  route_restore tmp form =
      guarded λ user. restore_handler crypto jwt_secret out root (some (as_user user)) tmp form

  module _ (s : Site) (served : TokenUser → Step BackupBody (Unit {0})) where
    abbrev Guarded : Outcome BackupBody (Unit {0}) × Site → Type 0
    Guarded x =
        ((message : String) × (x.0 ≡ stop (error 401 message)) × (x.1 ≡ s))
        ⊎ ((user : TokenUser) × (parse_token lib service (sent lib service c false) s.world.now
              ≡ some user)
            × (x ≡ served user s))

    guarded-cases : Guarded (guarded served s)
    unfolding guarded middleware require or_reply clock pure ◌>>=◌
    guarded-cases =
        elim (Bool-cases (has_prefix (credentials c.authorization false c.token) bearer)) [
          | inr e ↦ inl ("missing or invalid Authorization header", rw e refl, rw e refl)
          | inl e ↦
              elim (Option-cases (parse_token lib service (sent lib service c false) s.world.now)) [
                | inl f ↦ inl ("invalid or expired token", rw (e, f) refl, rw (e, f) refl)
                | inr (user, f) ↦ inr (user, f, rw (e, f) refl)
              ]
        ]

  -- A restore whose token is missing, malformed, invalid or expired is answered with 401 and
  -- changes nothing. With a valid one, and whichever calls fail, it ends in one of these ways. It is
  -- answered with 200: the tables are those that SQLite finds in the file of the database, on a new
  -- connection, the connection of the other services is closed, and the server is told to restart
  -- if it can be told. Or it is answered with an error, and the tables, the file of the database, its
  -- log, the connections and the signal are as before. Or it is answered with an error, the file of
  -- the database has been truncated or written over, the connection to it reads what it makes of the
  -- new file and the log, and the connections, the log and the signal are as before. Or it is
  -- answered with an error, the connection of the other services is closed, and the signal is as
  -- before.
  pub route_restore-Settled :
      (tmp : Text) (form : BackupForm) (s : Site)
      → let x = route_restore tmp form s in
        ((message : String) × (x.0 ≡ stop (error 401 message)) × (x.1 ≡ s))
        ⊎ ((user : TokenUser) × (parse_token lib service (sent lib service c false) s.world.now
              ≡ some user)
            × Settled out s AnyDisk x)
  unfolding route_restore
  route_restore-Settled tmp form s =
      elim (guarded-cases s
        (λ user. restore_handler crypto jwt_secret out root (some (as_user user)) tmp form)) [
          | inl refused ↦ inl refused
          | inr (user, valid, same) ↦ inr (
            user,
            valid,
            rw same (restore_settles crypto jwt_secret out root tmp (some (as_user user)) s form),
          )
        ]
