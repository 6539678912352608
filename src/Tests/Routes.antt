-- ===== src/Tests/Routes.antt =====
-- Runs of whole requests.
use my_personal_cloud.Prelude.{
  ◌∷◌, ℕ, ◌≤◌, none, length, filter, arith, ◌≡◌, refl, false, has_prefix, ◌++◌, ◌⊎◌, [], some,
  String, codes, Text, ◌==◌,
}
use my_personal_cloud.World.{stop, error, ◌>>=◌, require, or_reply, pure, clock}
use my_personal_cloud.Auth.Tokens.{TokenUser, parse_token}
use my_personal_cloud.Auth.Service.{bearer, middleware, credentials}
use my_personal_cloud.Files.Service.{delete_file, empty_trash}
use my_personal_cloud.Files.Service.Isolation.{OthersKept}
use my_personal_cloud.Server.{Server, Carried, start, as_user, route_file, protected}
use my_personal_cloud.Server.Guard.{sent, route_file-OthersKept}
use my_personal_cloud.RateLimit.{minute}
use my_personal_cloud.RateLimit.Window.{times_of}
use my_personal_cloud.RateLimit.Bound.{within}
use my_personal_cloud.Server.Logins.{Attempt, tried, login_attempts_bounded}
use my_personal_cloud.Tests.Data.{env}
use my_personal_cloud.Tests.Tokens.{library, parse_frames}
use my_personal_cloud.Tests.Sessions.{service, token, after_ensure}

abbrev pub with_token : Text → Carried
with_token raw = record {
  authorization = bearer ++ raw;
  token = [];
  forwarded = [];
  real = codes "10.0.0.1";
  remote = codes "10.0.0.1:80";
}

abbrev server : Server
server = start after_ensure

route_file-OthersKept_example :
    let (answer, s') =
      route_file library service env (with_token token) (delete_file (codes "f1")) server in
    ((message : String) × (answer ≡ stop (error 401 message)) × (s' ≡ server))
    ⊎ ((user : TokenUser) × (parse_token library service
            (sent library service (with_token token) false)
            200
          ≡ some user)
        × OthersKept env (as_user user).id server.world s'.world)
unfolding start
route_file-OthersKept_example =
    route_file-OthersKept library service env (with_token token) (delete_file (codes "f1")) server

-- No token is in the header.
refused_run :
    route_file library service env (with_token []) empty_trash server
    ≡ (stop (error 401 "invalid or expired token"), server)
unfolding route_file protected middleware credentials require or_reply clock pure parse_token
    parse_frames has_prefix ◌>>=◌ ◌==◌
refused_run = refl

abbrev attempt : ℕ → Attempt
attempt moment = record { carried = with_token []; body = none; moment = moment }

login_attempts_bounded_example :
    length (
      filter (within minute 3000000000) (
        times_of
          (codes "10.0.0.1")
          (tried library service server (attempt 1 ∷ attempt 2 ∷ attempt 3 ∷ []))))
    ≤ 5
unfolding start
login_attempts_bounded_example =
    login_attempts_bounded library service after_ensure (attempt 1 ∷ attempt 2 ∷ attempt 3 ∷ [])
      (codes "10.0.0.1") 3000000000 (omega arith, (omega arith, (omega arith, tt)))
