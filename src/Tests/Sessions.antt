-- ===== src/Tests/Sessions.antt =====
-- Runs of logins, of refreshing, of the middleware and of EnsureUser.
use my_personal_cloud.Prelude.{
  ℕ, ◌<◌, ◌^◌, any, ◌≡◌, refl, ◌++◌, ◌==◌, true, false, [], ◌∷◌, some, Text, codes, arith, find,
  All,
}
use my_personal_cloud.GoPath.{is_space}
use my_personal_cloud.Decimal.{decimal, digits_from, digits_value}
use my_personal_cloud.World.{
  World, UserRow, Database, Handler, stop, next, error, json, ◌>>=◌, pure, reply, require, or_reply,
  clock, query, exec,
}
use my_personal_cloud.Auth.Tokens.{
  Service, TokenUser, claim_text, format_int, issue_token, parse_token, user_of, scan_int,
  leading_digits,
}
use my_personal_cloud.Auth.Service.{
  AuthBody, ensured, session, is_named, next_id, insert_user, hash_password, ensure_user, bearer,
  credentials, login, login_handler, middleware, row_user, refresh_handler, refresh_token,
}
use my_personal_cloud.Auth.Sessions.{login_token_passes}
use my_personal_cloud.Auth.Refresh.{expired_token_refused, refreshed_token_passes}
use my_personal_cloud.Auth.Users.{DistinctUsers, Grown, ensure_user_keeps_users}
use my_personal_cloud.Auth.Bootstrap.{ensured_user_logs_in}
use my_personal_cloud.Tests.Data.{tables, world}
use my_personal_cloud.Tests.Tokens.{
  library, sign_claims, parse_frames, claim_number, library-AcceptsUntilExpiry,
  library-RefusesAfterExpiry, library-AcceptsOwnHash,
}

abbrev pub service : Service
service = record { secret = codes "k"; expiry = 100 }

abbrev pub carol : TokenUser
carol = record { id = (false, 3); username = codes "carol" }

-- The token that is issued for her at 200.
abbrev pub token : Text
token = (1 ∷ codes "3") ++ (5 ∷ codes "carol") ++ 300 ∷ codes "k"

abbrev pub with_carol : Database
with_carol = record tables {
  users =
      tables.users
      ++ record { id = 3; username = codes "carol"; password_hash = 0 ∷ codes "pw" } ∷ [];
}

abbrev pub after_ensure : World
after_ensure = record (world []) { db = with_carol; uuids_used = 1 }

ensure_run :
    ensure_user library {B = AuthBody} (codes "carol") (codes "pw") (world [])
    ≡ (next ensured, after_ensure)
unfolding ensure_user query exec pure hash_password insert_user next_id ◌>>=◌ ◌==◌
ensure_run = refl

token_run : issue_token library service (false, 3) (codes "carol") 200 ≡ some token
unfolding issue_token format_int decimal digits_from sign_claims claim_text claim_number ◌==◌
token_run = refl

login_run :
    login_handler library service (some (codes "carol", codes "pw")) after_ensure
    ≡ (stop (json 200 (session token carol 100)), after_ensure)
unfolding login_handler login query pure clock reply or_reply issue_token format_int decimal
    digits_from sign_claims claim_text claim_number ◌>>=◌ ◌==◌
login_run = refl

abbrev answer_name : TokenUser → Handler AuthBody (Unit {0})
answer_name user = reply (json 200 (session [] user 0))

abbrev at : ℕ → World
at now = record after_ensure { now = now }

in_header : credentials (bearer ++ token) true [] ≡ bearer ++ token
unfolding credentials ◌==◌
in_header = refl

in_query : credentials [] true token ≡ bearer ++ token
unfolding credentials ◌==◌
in_query = refl

small_ids : All (λ (u : UserRow). u.id < 2 ^ 63) after_ensure.db.users
small_ids = (omega arith, (omega arith, (omega arith, tt)))

login_token_passes_example :
    ((u : UserRow) × (find (is_named (codes "carol")) after_ensure.db.users ≡ some u)
      × (library.compare u.password_hash (codes "pw") ≡ true)
      × (carol ≡ row_user library service (codes "carol") u))
    × (middleware library service [] true token answer_name (at 299) ≡ answer_name carol (at 299))
login_token_passes_example =
    login_token_passes library service (codes "carol") (codes "pw") token carol 100 after_ensure
      after_ensure (at 299) answer_name [] token true library-AcceptsUntilExpiry (cc) small_ids
      (omega arith) login_run in_query (omega arith)

expired_token_refused_example :
    middleware library service (bearer ++ token) true [] answer_name (at 300)
    ≡ (stop (error 401 "invalid or expired token"), at 300)
expired_token_refused_example =
    expired_token_refused library service (codes "carol") (codes "pw") token carol 100 after_ensure
      after_ensure (at 300) answer_name (bearer ++ token) [] true library-RefusesAfterExpiry
      (omega arith) login_run in_header (omega arith)

abbrev token_250 : Text
token_250 = 1 ∷ (codes "3" ++ 5 ∷ (codes "carol" ++ 350 ∷ codes "k"))

refresh_run :
    refresh_handler library service [] (true, token) (at 250)
    ≡ (stop (json 200 (session token_250 carol 100)), at 250)
unfolding refresh_handler require or_reply reply clock ◌>>=◌ parse_token user_of scan_int claim_text
    issue_token format_int decimal digits_from sign_claims parse_frames claim_number ◌==◌
    leading_digits is_space digits_value
refresh_run = refl

in_header_250 : credentials (bearer ++ token_250) true [] ≡ bearer ++ token_250
unfolding credentials ◌==◌
in_header_250 = refl

refreshed_token_passes_example :
    (parse_token library service (refresh_token library service [] (true, token)) 250 ≡ some carol)
    × (middleware library service (bearer ++ token_250) true [] answer_name (at 349)
        ≡ answer_name carol (at 349))
refreshed_token_passes_example =
    refreshed_token_passes library service [] (true, token) token_250 carol 100 (at 250) (at 250)
      (at 349) answer_name (bearer ++ token_250) [] true library-AcceptsUntilExpiry (omega arith)
      refresh_run in_header_250 (omega arith)

tables-DistinctUsers : DistinctUsers tables.users
tables-DistinctUsers = (((cc, omega arith), tt), (tt, tt))

ensure_user_keeps_users_example :
    Grown tables.users
      (ensure_user library {B = AuthBody} (codes "carol") (codes "pw") (world [])).1.db
ensure_user_keeps_users_example =
    ensure_user_keeps_users library AuthBody (codes "carol") (codes "pw") (world [])
      tables-DistinctUsers

name_is_free : any (is_named (codes "carol")) tables.users ≡ false
unfolding ◌==◌
name_is_free = refl

ensured_user_logs_in_example :
    (login_handler library service (some (codes "carol", codes "pw")) after_ensure
      ≡ (stop (json 200 (session token carol 100)), after_ensure))
    × All (λ (u : UserRow). u.id < 3) tables.users
unfolding next_id
ensured_user_logs_in_example =
    ensured_user_logs_in library library-AcceptsOwnHash AuthBody (codes "carol") (codes "pw")
      service token (world []) after_ensure name_is_free ensure_run token_run
