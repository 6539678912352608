-- ===== src/Server.antt =====
-- The routes of cmd/server/main.go: which requests need a token, and which limiter stands before
-- which handler. On a protected route the token is looked at first and the limiter after it. The
-- packages chi and cors, the cleanup of the limiters, and the requests for the user interface are
-- left out.
pub mod Backups
pub mod Guard
pub mod Logins
use my_personal_cloud.Prelude.{ℕ, ◌*◌, ◌^◌, Bool, true, false, Option, none, some, Text}
use my_personal_cloud.World.{World, Env, Outcome, stop, next, error, json, Handler, Endpoint, pure}
use my_personal_cloud.RateLimit.{Limiter, new, minute, real_ip, middleware as rate_limited}
use my_personal_cloud.Auth.{User}
use my_personal_cloud.Auth.Tokens.{Library, Service, TokenUser}
use my_personal_cloud.Auth.Service.{
  AuthBody, middleware, login_handler, me_handler, refresh_handler,
}
use my_personal_cloud.Files.Api.{Body}
use my_personal_cloud.Files.Service.{
  Request, serve, list, search_names, upload, download, patch_file, restore, create_folder,
  patch_folder, delete_folder, trash, empty_trash,
}
use my_personal_cloud.Photos.{PhotoBody, Images}
use my_personal_cloud.Photos.Service.{PhotoRequest, serve_photos}
use my_personal_cloud.Shares.{ShareBody}
use my_personal_cloud.Shares.Service.{
  ShareRequest, serve_shares, create_link, list_links, revoke_link, open_link,
}

pub record Server : Type 0 where
  pub world : World
  pub login_limiter : Limiter
  pub api_limiter : Limiter
  pub upload_limiter : Limiter

unfoldable pub start : World → Server
start w = record {
  world = w;
  login_limiter = new 5 minute;
  api_limiter = new 60 minute;
  upload_limiter = new 10 minute;
}

-- What a request carries besides its route and body: the headers Authorization, X-Forwarded-For
-- and X-Real-IP, the query parameter "token", and the remote address as chi leaves it; "" where
-- absent.
pub record Carried : Type 0 where
  pub authorization : Text
  pub token : Text
  pub forwarded : Text
  pub real : Text
  pub remote : Text

-- The limiter before a route.
pub data Limit : Type 0 where
  unlimited : Limit
  login_limit : Limit
  api_limit : Limit
  upload_limit : Limit

abbrev pub Run : Type 0 → Type 0
Run B = Server → Outcome B (Unit {0}) × Server

-- The limiters count in nanoseconds, the world in seconds.
abbrev pub nanoseconds : Server → ℕ
nanoseconds s = s.world.now * 10 ^ 9

abbrev pub address : Carried → Text
address c = real_ip c.forwarded c.real c.remote

module _ {B : Type 0} where
  abbrev pub on_world : {A : Type 0} → Handler B A → Server → Outcome B A × Server
  on_world m s = let (o, w) = m s.world in (o, record s { world = w })

  abbrev pub too_many : Run B
  too_many s = (stop (error 429 "too many requests"), s)

  -- `Limiter.Middleware` of the limiter that the route has.
  unfoldable pub limited : Limit → Text → Run B → Run B
  limited unlimited ip served s = served s
  limited login_limit ip served s =
      let (run, l) = rate_limited too_many served ip (nanoseconds s) s.login_limiter in
      run (record s { login_limiter = l })
  limited api_limit ip served s =
      let (run, l) = rate_limited too_many served ip (nanoseconds s) s.api_limiter in
      run (record s { api_limiter = l })
  limited upload_limit ip served s =
      let (run, l) = rate_limited too_many served ip (nanoseconds s) s.upload_limiter in
      run (record s { upload_limiter = l })

  abbrev pub continued :
      Outcome B TokenUser × Server → (TokenUser → Run B) → Outcome B (Unit {0}) × Server
  continued (stop r, s) k = (stop r, s)
  continued (next user, s) k = k user s

  -- A route below `protected.Use(authSvc.Middleware)`.
  unfoldable pub protected :
      Library → Service → Carried → Bool → Limit → (TokenUser → Endpoint B) → Run B
  protected lib service c is_get limiter served s =
      continued (on_world (middleware lib service c.authorization is_get c.token pure) s)
        (λ user. limited limiter (address c) (on_world (served user)))

-- The user of the services. No row has an identifier of zero or below; zero stands for these.
abbrev pub as_user : TokenUser → User
as_user user = record {
  id = elim (user.id.0) [ true ↦ 0 | false ↦ user.id.1 ];
  username = user.username;
}

abbrev pub limit_of_file : Request → Limit
limit_of_file (list path limit offset) = unlimited
limit_of_file (search_names q limit offset) = api_limit
limit_of_file (upload form) = upload_limit
limit_of_file (download id inline) = unlimited
limit_of_file (patch_file id body) = api_limit
limit_of_file (Request.delete_file id) = api_limit
limit_of_file (restore id) = unlimited
limit_of_file (create_folder body) = api_limit
limit_of_file (patch_folder id body) = api_limit
limit_of_file (delete_folder id) = api_limit
limit_of_file (trash limit offset) = api_limit
limit_of_file empty_trash = api_limit

abbrev pub is_get_file : Request → Bool
is_get_file (list path limit offset) = true
is_get_file (search_names q limit offset) = true
is_get_file (download id inline) = true
is_get_file (trash limit offset) = true
is_get_file _ = false

abbrev pub is_get_share : ShareRequest → Bool
is_get_share list_links = true
is_get_share _ = false

module _ (lib : Library) (service : Service) where
  unfoldable pub route_login : Carried → Option (Text × Text) → Run AuthBody
  route_login c body = limited login_limit (address c) (on_world (login_handler lib service body))

  unfoldable pub route_me : Carried → Run AuthBody
  route_me c = protected lib service c true unlimited (λ user. me_handler lib service (some user))

  unfoldable pub route_refresh : Carried → Bool × Text → Run AuthBody
  route_refresh c body =
      protected lib service c false unlimited
        (λ user. refresh_handler lib service c.authorization body)

  module _ (env : Env) where
    unfoldable pub route_file : Carried → Request → Run Body
    route_file c r =
        protected lib service c (is_get_file r) (limit_of_file r)
          (λ user. serve env (some (as_user user)) r)

    unfoldable pub route_photo : {P : Type 0} → Images P → Carried → PhotoRequest → Run PhotoBody
    route_photo images c r =
        protected lib service c true unlimited
          (λ user. serve_photos images env (some (as_user user)) r)

    -- The link itself is public.
    unfoldable pub route_share : Carried → ShareRequest → Run ShareBody
    route_share c (open_link token q) = on_world (serve_shares env none (open_link token q))
    route_share c r =
        protected lib service c (is_get_share r) unlimited
          (λ user. serve_shares env (some (as_user user)) r)
