-- ===== src/Auth/Service.antt =====
-- EnsureUser, Login, Middleware and the handlers of internal/auth/auth.go.
use my_personal_cloud.Prelude.{
  ℕ, suc, ◌++◌, ◌==◌, Bool, true, false, not, ◌&&◌, ◌||◌, List, [], ◌∷◌, Option, none, some, Text,
  codes, ltb, leb, any, find, drop, has_prefix, if◌then◌else◌,
}
use my_personal_cloud.Sql.{count}
use my_personal_cloud.World.{
  UserRow, Database, Handler, Endpoint, next, error, json, ◌>>=◌, ◌>>◌, pure, reply, require,
  or_reply, clock, query, exec,
}
use my_personal_cloud.Auth.Tokens.{
  Library, Service, TokenUser, claim_text, scan_int, issue_token, parse_token,
}

-- The objects that the handlers send.
pub data AuthBody : Type 0 where
  session : Text → TokenUser → ℕ → AuthBody
  me : TokenUser → AuthBody

abbrev pub is_named : Text → UserRow → Bool
is_named username u = u.username == username

-- AUTOINCREMENT: rows of users are never deleted, so it is one more than the largest.
unfoldable pub next_id : List UserRow → ℕ
next_id [] = 1
next_id (u ∷ us) = let n = next_id us in if leb n u.id then suc u.id else n

-- `INSERT INTO users`: refused where the name is taken.
unfoldable pub insert_user : Text → Text → Database → Option (Database × ℕ)
insert_user username password_hash db =
    if any (is_named username) db.users
    then none
    else some (
      record db {
        users =
            db.users
            ++ record { id = next_id db.users; username = username; password_hash = password_hash }
              ∷ [];
      },
      1,
    )

-- What EnsureUser returns: nil or an error.
pub data Ensured : Type 0 where
  ensured : Ensured
  not_given : Ensured
  check_failed : Ensured
  hash_failed : Ensured
  insert_failed : Ensured

-- What Login returns: the error of invalid credentials, another error, or the token and the user.
pub data Login : Type 0 where
  invalid_credentials : Login
  login_failed : Login
  granted : Text → TokenUser → Login

abbrev pub bearer : Text
bearer = codes "Bearer "

abbrev pub inserted : Option ℕ → Ensured
inserted none = insert_failed
inserted (some n) = ensured

-- The credentials of a request: its header, or for GET its query parameter "token".
unfoldable pub credentials : Text → Bool → Text → Text
credentials header is_get token =
    if header == [] && is_get && not (token == []) then bearer ++ token else header

module _ (lib : Library) where
  module _ {B : Type 0} where
    -- `bcrypt.GenerateFromPassword`, with a salt that was not used before.
    unfoldable pub hash_password : Text → Handler B (Option Text)
    hash_password password w =
        (next (lib.hash w.uuids_used password), record w { uuids_used = suc w.uuids_used })

    abbrev pub insert_hashed : Text → Option Text → Handler B Ensured
    insert_hashed username none = pure hash_failed
    insert_hashed username (some hash) = do
      done ← exec (insert_user username hash)
      pure (inserted done)

    abbrev pub create_missing : Text → Text → Option ℕ → Handler B Ensured
    create_missing username password none = pure check_failed
    create_missing username password (some n) =
        if ltb 0 n
        then pure ensured
        else hash_password password >>= λ hash. insert_hashed username hash

    -- `EnsureUser`
    unfoldable pub ensure_user : Text → Text → Handler B Ensured
    ensure_user username password =
        if username == [] || password == []
        then pure not_given
        else query (λ db. count (is_named username) db.users) >>= λ exists.
            create_missing username password exists

  module _ (service : Service) where
    abbrev pub granted_token : TokenUser → Option Text → Login
    granted_token user none = login_failed
    granted_token user (some token) = granted token user

    abbrev pub row_user : Text → UserRow → TokenUser
    row_user username u = record { id = (false, u.id); username = username }

    abbrev pub check_password : Text → Text → ℕ → Option (Option UserRow) → Login
    check_password username password now none = login_failed
    check_password username password now (some none) = invalid_credentials
    check_password username password now (some (some u)) =
        if lib.compare u.password_hash password
        then granted_token (row_user username u)
            (issue_token lib service (false, u.id) username now)
        else invalid_credentials

    module _ {B : Type 0} where
      -- `Login`
      unfoldable pub login : Text → Text → Handler B Login
      login username password = do
        row ← query (λ db. find (is_named username) db.users)
        now ← clock
        pure (check_password username password now row)

      -- `Middleware`: the next handler gets the user.
      unfoldable pub middleware :
          {A : Type 0} → Text → Bool → Text → (TokenUser → Handler B A) → Handler B A
      middleware header is_get token served = do
        let sent = credentials header is_get token
        require (has_prefix sent bearer) (error 401 "missing or invalid Authorization header")
        now ← clock
        user ←
            or_reply (parse_token lib service (drop 7 sent) now)
              (error 401 "invalid or expired token")
        served user

    abbrev pub answer_login : Login → Endpoint AuthBody
    answer_login invalid_credentials = reply (error 401 "invalid username or password")
    answer_login login_failed = reply (error 500 "login failed")
    answer_login (granted token user) = reply (json 200 (session token user service.expiry))

    -- `LoginHandler` of the decoded body: user name and password.
    unfoldable pub login_handler : Option (Text × Text) → Endpoint AuthBody
    login_handler body = do
      b ← or_reply body (error 400 "invalid request body")
      result ← login b.0 b.1
      answer_login result

    -- `MeHandler`
    unfoldable pub me_handler : Option TokenUser → Endpoint AuthBody
    me_handler user = do u ← or_reply user (error 401 "not authenticated"); reply (json 200 (me u))

    abbrev pub refresh_token : Text → Bool × Text → Text
    refresh_token header (true, token) = token
    refresh_token header (false, token) = if has_prefix header bearer then drop 7 header else token

    -- `RefreshHandler` of the header Authorization and the body: whether it was decoded without an
    -- error, and the token in it.
    unfoldable pub refresh_handler : Text → Bool × Text → Endpoint AuthBody
    refresh_handler header body = do
      let token = refresh_token header body
      require (not (token == [])) (error 400 "token is required")
      unverified ← or_reply (lib.parse_unverified token) (error 400 "invalid token")
      claims ← or_reply unverified.claims (error 400 "invalid claims")
      let sub = claim_text (codes "sub") claims
      require (not (sub == [] || claim_text (codes "usr") claims == []))
          (error 400 "missing claims")
      id ← or_reply (scan_int sub) (error 400 "bad subject")
      now ← clock
      user ← or_reply (parse_token lib service token now) (error 401 "token expired or invalid")
      issued ←
          or_reply (issue_token lib service user.id user.username now)
            (error 500 "token refresh failed")
      reply (json 200 (session issued user service.expiry))
