-- ===== src/Auth/Sessions.antt =====
-- What the tokens of internal/auth/auth.go are good for, given how the package jwt treats them.
use my_personal_cloud.Prelude.{
  ℕ, ◌+◌, ◌<◌, ◌≤◌, ◌^◌, ◌≡◌, ◌≢◌, refl, ◌++◌, Bool, true, false, [], Option, none, some, Text,
  codes, eq_false, find, has_prefix, Bool-cases, inl, inr, All, All-find,
}
use my_personal_cloud.World.{
  World, UserRow, Handler, stop, error, json, ◌>>=◌, pure, reply, require, or_reply, clock, query,
  next_fault, used,
}
use my_personal_cloud.Auth.Tokens.{
  Library, Service, Token, TokenUser, Claims, Method, hmac, claims_of, claim_text, format_int,
  issue_token, parse_token, user_of, key_of,
}
use my_personal_cloud.Auth.Numbers.{IsInt64, scan_int-format_int, format_int-ne-nil}
use my_personal_cloud.Auth.Service.{
  session, is_named, bearer, credentials, login, check_password, answer_login, login_handler,
  granted_token, row_user, middleware,
}

-- `jwt.Parse` accepts a token that was signed with the key, before its time of expiry, and gives
-- back the two claims that are strings. The numbers of claims are exact below 2 ^ 53.
abbrev pub AcceptsUntilExpiry : Library → Type 0
AcceptsUntilExpiry lib =
    (key sub usr raw : Text) (iat exp now : ℕ) (key_of : Method → Option Text)
    → lib.sign key (claims_of sub usr iat exp) ≡ some raw
    → key_of hmac ≡ some key
    → now < exp
    → exp < 2 ^ 53
    → (token : Token) × (claims : Claims) × (lib.parse raw now key_of ≡ some token)
      × (token.valid ≡ true)
      × (token.claims ≡ some claims)
      × (claim_text (codes "sub") claims ≡ sub)
      × (claim_text (codes "usr") claims ≡ usr)

-- It is an error from the time of expiry on.
abbrev pub RefusesAfterExpiry : Library → Type 0
RefusesAfterExpiry lib =
    (key sub usr raw : Text) (iat exp now : ℕ) (key_of : Method → Option Text)
    → lib.sign key (claims_of sub usr iat exp) ≡ some raw
    → exp ≤ now
    → exp < 2 ^ 53
    → lib.parse raw now key_of ≡ none

-- A user that a token can name.
abbrev pub IsNameable : TokenUser → Type 0
IsNameable user = IsInt64 user.id × (user.username ≢ [])

user_of-claims :
    (user : TokenUser) (claims : Claims)
    → IsNameable user
    → claim_text (codes "sub") claims ≡ format_int user.id
    → claim_text (codes "usr") claims ≡ user.username
    → user_of (some claims) ≡ some user
unfolding user_of
user_of-claims user claims h sub usr =
    rw
      (
        sub,
        usr,
        eq_false (format_int user.id) [] (format_int-ne-nil user.id),
        eq_false user.username [] h.1,
        scan_int-format_int user.id h.0,
      )
      refl

module _ (lib : Library) (service : Service) where
  module _ (user : TokenUser) (raw : Text) (issued : ℕ)
      (made : issue_token lib service user.id user.username issued ≡ some raw)
      (exact : issued + service.expiry < 2 ^ 53) where
    abbrev expires : ℕ
    expires = issued + service.expiry

    pub parse_issued :
        (now : ℕ)
        → AcceptsUntilExpiry lib
        → IsNameable user
        → now < expires
        → parse_token lib service raw now ≡ some user
    unfolding parse_token issue_token
    parse_issued now accepts h early =
        let (token, claims, parsed, valid, given, sub, usr) =
          accepts service.secret (format_int user.id) user.username raw issued expires now
            (key_of service) made refl early exact in
        rw (parsed, valid, given) (user_of-claims user claims h sub usr)

    pub parse_expired :
        (now : ℕ) → RefusesAfterExpiry lib → expires ≤ now → parse_token lib service raw now ≡ none
    unfolding parse_token issue_token
    parse_expired now refuses late =
        rw
          (refuses service.secret (format_int user.id) user.username raw issued expires now
            (key_of service) made late exact)
          refl

  module _ {B A : Type 0} (served : TokenUser → Handler B A) (header : Text) (is_get : Bool)
      (query raw : Text) (sent : credentials header is_get query ≡ bearer ++ raw) (w : World) where
    pub middleware-passes :
        (user : TokenUser)
        → parse_token lib service raw w.now ≡ some user
        → middleware lib service header is_get query served w ≡ served user w
    unfolding middleware require clock or_reply ◌>>=◌ has_prefix
    middleware-passes user h = rw (sent, h) refl

    pub middleware-stops :
        parse_token lib service raw w.now ≡ none
        → middleware lib service header is_get query served w
          ≡ (stop (error 401 "invalid or expired token"), w)
    unfolding middleware require clock or_reply ◌>>=◌ has_prefix
    middleware-stops h = rw (sent, h) refl

  -- What is known when Login has granted a token.
  abbrev pub Granted : Text → Text → ℕ → Option UserRow → Text → TokenUser → Type 0
  Granted name password now found token user =
      (u : UserRow) × (found ≡ some u)
      × (lib.compare u.password_hash password ≡ true)
      × (issue_token lib service (false, u.id) name now ≡ some token)
      × (user ≡ row_user lib service name u)

  module _ (name password : Text) (now secs : ℕ) (w w' : World) (token : Text)
      (user : TokenUser) where
    answered-token :
        (o : Option Text) (u : TokenUser)
        → answer_login lib service (granted_token lib service u o) w
          ≡ (stop (json 200 (session token user secs)), w')
        → (o ≡ some token) × (user ≡ u)
    unfolding reply
    answered-token none u h = absurd (cc h)
    answered-token (some t) u h = (cc h, cc h)

    answered-row :
        (found : Option UserRow)
        → answer_login lib service (check_password lib service name password now (some found)) w
          ≡ (stop (json 200 (session token user secs)), w')
        → Granted name password now found token user
    unfolding reply
    answered-row none h = absurd (cc h)
    answered-row (some u) h = elim (Bool-cases (lib.compare u.password_hash password)) [
      | inl e ↦
          let (made, same) =
            answered-token (issue_token lib service (false, u.id) name now)
              (row_user lib service name u) (rw e at h) in
          (u, refl, e, made, same)
      | inr e ↦ absurd (cc (rw e at h))
    ]

  pub login_handler-Granted :
      (name password token : Text) (user : TokenUser) (secs : ℕ) (w w' : World)
      → login_handler lib service (some (name, password)) w
        ≡ (stop (json 200 (session token user secs)), w')
      → Granted name password w.now (find (is_named name) w.db.users) token user
  unfolding login_handler login or_reply query clock pure reply ◌>>=◌
  login_handler-Granted name password token user secs w w' h =
      elim (Bool-cases (next_fault w.faults)) [
        | inl e ↦ absurd (cc (rw e at h))
        | inr e ↦
            answered-row name password w.now secs (used w) w' token user
              (find (is_named name) w.db.users) (rw e at h)
      ]

  -- Where jwt accepts a token until its expiry, numbers being exact below 2 ^ 53, and the
  -- row identifiers are those of an int64: when a login with a name that is not empty is answered
  -- with a token, the name is that of a row whose hash matches the password, the user of the answer
  -- is that row's, and until the expiry every request that sends the token, in its header or, for
  -- GET, as the query parameter, is passed on by the middleware with this user.
  pub login_token_passes :
      {B A : Type 0} (name password token : Text) (user : TokenUser) (secs : ℕ) (w w' v : World)
      (served : TokenUser → Handler B A) (header query : Text) (is_get : Bool)
      → AcceptsUntilExpiry lib
      → name ≢ []
      → All (λ (u : UserRow). u.id < 2 ^ 63) w.db.users
      → w.now + service.expiry < 2 ^ 53
      → login_handler lib service (some (name, password)) w
        ≡ (stop (json 200 (session token user secs)), w')
      → credentials header is_get query ≡ bearer ++ token
      → v.now < w.now + service.expiry
      → ((u : UserRow) × (find (is_named name) w.db.users ≡ some u)
          × (lib.compare u.password_hash password ≡ true)
          × (user ≡ row_user lib service name u))
        × (middleware lib service header is_get query served v ≡ served user v)
  login_token_passes name password token user secs w w' v served header query is_get accepts named
        ids exact h sent early =
      let (u, found, matches, made, same) =
        login_handler-Granted name password token user secs w w' h in
      let by_row : TokenUser = row_user lib service name u in
      let nameable : IsNameable by_row =
        (All-find (λ (r : UserRow). r.id < 2 ^ 63) (is_named name) w.db.users ids found, named) in
      (
        (u, found, matches, same),
        rw same (
            middleware-passes served header is_get query token sent v by_row
              (parse_issued by_row token w.now made exact v.now accepts nameable early)),
      )
