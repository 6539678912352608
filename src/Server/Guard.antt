-- ===== src/Server/Guard.antt =====
-- What the routes of cmd/server/main.go let through.
use my_personal_cloud.Prelude.{
  ◌≡◌, refl, ◌⊎◌, inl, inr, Bool, some, Text, String, drop, has_prefix, Bool-cases, Option-cases,
}
use my_personal_cloud.World.{
  World, Env, Outcome, stop, error, Endpoint, ◌>>=◌, pure, require, or_reply, clock,
}
use my_personal_cloud.RateLimit.{allow, middleware as rate_limited}
use my_personal_cloud.Auth.Tokens.{Library, Service, TokenUser, parse_token}
use my_personal_cloud.Auth.Service.{bearer, credentials, middleware}
use my_personal_cloud.Files.Service.{Request, serve}
use my_personal_cloud.Files.Service.Isolation.{OthersKept, nothing-OthersKept, serve-OthersKept}
use my_personal_cloud.Server.{
  Server, Carried, Limit, unlimited, login_limit, api_limit, upload_limit, on_world, limited,
  protected, address, as_user, nanoseconds, limit_of_file, is_get_file, route_file,
}

-- What holds of the world before and after a handler holds behind its limiter.
limited_world :
    {B : Type 0} (P : World → Type 0) (limit : Limit) (ip : Text) (m : Endpoint B) (s : Server)
    → P s.world
    → P (m s.world).1
    → P (limited limit ip (on_world m) s).1.world
unfolding limited rate_limited
limited_world P unlimited ip m s h k = k
limited_world P login_limit ip m s h k =
    elim (Bool-cases (allow ip (nanoseconds s) s.login_limiter).0) [
      | inl e ↦ rw e k
      | inr e ↦ rw e h
    ]
limited_world P api_limit ip m s h k =
    elim (Bool-cases (allow ip (nanoseconds s) s.api_limiter).0) [ inl e ↦ rw e k | inr e ↦ rw e h ]
limited_world P upload_limit ip m s h k =
    elim (Bool-cases (allow ip (nanoseconds s) s.upload_limiter).0) [
      | inl e ↦ rw e k
      | inr e ↦ rw e h
    ]

module _ (lib : Library) (service : Service) (c : Carried) (is_get : Bool) where
  -- The bytes behind "Bearer " that the request sends.
  abbrev pub sent : Text
  sent = drop 7 (credentials c.authorization is_get c.token)

  module _ {B : Type 0} (s : Server) where
    abbrev Refused : Outcome B (Unit {0}) × Server → Type 0
    Refused x = (message : String) × (x.0 ≡ stop (error 401 message)) × (x.1 ≡ s)

    module _ (limit : Limit) (served : TokenUser → Endpoint B) where
      protected-cases :
          Refused (protected lib service c is_get limit served s)
          ⊎ ((user : TokenUser) × (parse_token lib service sent s.world.now ≡ some user)
              × (protected lib service c is_get limit served s
                  ≡ limited limit (address c) (on_world (served user)) s))
      unfolding protected middleware require or_reply clock pure ◌>>=◌
      protected-cases =
          elim (Bool-cases (has_prefix (credentials c.authorization is_get c.token) bearer)) [
            | inr e ↦ inl ("missing or invalid Authorization header", rw e refl, rw e refl)
            | inl e ↦ elim (Option-cases (parse_token lib service sent s.world.now)) [
              | inl f ↦ inl ("invalid or expired token", rw (e, f) refl, rw (e, f) refl)
              | inr (user, f) ↦ inr (user, f, rw (e, f) refl)
            ]
          ]

-- Whatever request arrives on a route of files and folders: it is answered with 401 and nothing
-- changes, or it sends a token that is valid at this time, and then the accounts, the rows of the
-- files and folders of all users but the one that the token names, and what is stored at every path
-- at which no row of that user is stored and no upload of that user is put, stay as they are,
-- whether the limiter lets it through or not and whichever calls fail.
pub route_file-OthersKept :
    (lib : Library) (service : Service) (env : Env) (c : Carried) (r : Request) (s : Server)
    → let (answer, s') = route_file lib service env c r s in
      ((message : String) × (answer ≡ stop (error 401 message)) × (s' ≡ s))
      ⊎ ((user : TokenUser) × (parse_token lib service
              (sent lib service c (is_get_file r))
              s.world.now
            ≡ some user)
          × OthersKept env (as_user user).id s.world s'.world)
unfolding route_file
route_file-OthersKept lib service env c r s =
    elim (protected-cases lib service c (is_get_file r) s (limit_of_file r)
      (λ user. serve env (some (as_user user)) r)) [
        | inl refused ↦ inl refused
        | inr (user, valid, same) ↦ inr (
          user,
          valid,
          rw same (
              limited_world (OthersKept env (as_user user).id s.world) (limit_of_file r) (address c)
                (serve env (some (as_user user)) r) s
                (nothing-OthersKept env (as_user user).id s.world)
                (serve-OthersKept env (as_user user) r s.world)),
        )
      ]
