-- ===== src/Auth/Refresh.antt =====
-- Expiry and refreshing of the tokens of internal/auth/auth.go.
use my_personal_cloud.Prelude.{
  ℕ, ◌+◌, ◌<◌, ◌≤◌, ◌^◌, ◌≡◌, ◌≢◌, ◌++◌, ◌==◌, Bool, true, ◌||◌, [], Option, none, some, Text,
  codes, arith, eq_iff, Bool-cases, Option-cases, inl, inr,
}
use my_personal_cloud.World.{World, Handler, stop, error, json, reply}
use my_personal_cloud.World.Passed.{or_reply-passed, require-passed, clock-passed}
use my_personal_cloud.Auth.Tokens.{
  Library, Service, Token, TokenUser, Claims, claim_text, scan_int, issue_token, parse_token,
  user_of, checked_token, with_id, key_of,
}
use my_personal_cloud.Auth.Numbers.{scan_int-IsInt64}
use my_personal_cloud.Auth.Service.{
  session, bearer, credentials, middleware, login_handler, row_user, refresh_handler, refresh_token,
}
use my_personal_cloud.Auth.Sessions.{
  AcceptsUntilExpiry, RefusesAfterExpiry, IsNameable, parse_issued, parse_expired,
  middleware-passes, middleware-stops, login_handler-Granted,
}

with_id-IsNameable :
    (sub usr : Text) (user : TokenUser)
    → usr ≢ []
    → with_id usr (scan_int sub) ≡ some user
    → IsNameable user
with_id-IsNameable sub usr user e h = elim (Option-cases (scan_int sub)) [
  | inl f ↦ absurd (cc (rw f at h))
  | inr (i, f) ↦
      let same : with_id usr (some i) ≡ some user = rw f at h in
      let user_is : record { id = i; username = usr } ≡ user = cc same in
      rw (← user_is) (scan_int-IsInt64 sub f, e)
]

user_of-IsNameable :
    (o : Option Claims) (user : TokenUser) → user_of o ≡ some user → IsNameable user
unfolding user_of
user_of-IsNameable none user h = absurd (cc h)
user_of-IsNameable (some claims) user h =
    let sub = claim_text (codes "sub") claims in
    let usr = claim_text (codes "usr") claims in
    elim (Bool-cases (sub == [] || usr == [])) [
      | inl e ↦ absurd (cc (rw e at h))
      | inr e ↦
          with_id-IsNameable sub usr user
            (λ q. let both : usr == [] ≡ true = (eq_iff usr []).1 q in ground arith) (rw e at h)
    ]

checked_token-IsNameable :
    (o : Option Token) (user : TokenUser) → checked_token o ≡ some user → IsNameable user
checked_token-IsNameable none user h = absurd (cc h)
checked_token-IsNameable (some token) user h = elim (Bool-cases token.valid) [
  | inl e ↦ user_of-IsNameable token.claims user (rw e at h)
  | inr e ↦ absurd (cc (rw e at h))
]

module _ (lib : Library) (service : Service) where
  parse_token-IsNameable :
      (raw : Text) (now : ℕ) (user : TokenUser)
      → parse_token lib service raw now ≡ some user
      → IsNameable user
  unfolding parse_token
  parse_token-IsNameable raw now user h =
      checked_token-IsNameable (lib.parse raw now (key_of service)) user h

  -- Where jwt refuses expired tokens, and up to the exactness of numbers below 2 ^ 53: from the
  -- time of expiry on, every request that sends the token of a login is answered with 401 and
  -- changes nothing, and what the route serves is not reached.
  pub expired_token_refused :
      {B A : Type 0} (name password token : Text) (user : TokenUser) (secs : ℕ) (w w' v : World)
      (served : TokenUser → Handler B A) (header query : Text) (is_get : Bool)
      → RefusesAfterExpiry lib
      → w.now + service.expiry < 2 ^ 53
      → login_handler lib service (some (name, password)) w
        ≡ (stop (json 200 (session token user secs)), w')
      → credentials header is_get query ≡ bearer ++ token
      → w.now + service.expiry ≤ v.now
      → middleware lib service header is_get query served v
        ≡ (stop (error 401 "invalid or expired token"), v)
  expired_token_refused name password token user secs w w' v served header query is_get refuses
        exact h sent late =
      let (u, found, matches, made, same) =
        login_handler-Granted lib service name password token user secs w w' h in
      middleware-stops lib service served header is_get query token sent v (
        parse_expired lib service (row_user lib service name u) token w.now made exact v.now refuses
          late)

  same_session :
      (header : Text) (body : Bool × Text) (token issued : Text) (user u : TokenUser) (secs : ℕ)
      (w w' : World)
      → parse_token lib service (refresh_token lib service header body) w.now ≡ some u
      → issue_token lib service u.id u.username w.now ≡ some issued
      → reply {A = Unit {0}} (json 200 (session issued u service.expiry)) w
        ≡ (stop (json 200 (session token user secs)), w')
      → (parse_token lib service (refresh_token lib service header body) w.now ≡ some user)
        × (issue_token lib service user.id user.username w.now ≡ some token)
  unfolding reply
  same_session header body token issued user u secs w w' parsed made h =
      let user_is : u ≡ user = cc h in
      let token_is : issued ≡ token = cc h in rw (← user_is, ← token_is) (parsed, made)

  -- What is known when a refresh was answered with a token.
  refresh_handler-made :
      (header : Text) (body : Bool × Text) (token : Text) (user : TokenUser) (secs : ℕ)
      (w w' : World)
      → refresh_handler lib service header body w ≡ (stop (json 200 (session token user secs)), w')
      → (parse_token lib service (refresh_token lib service header body) w.now ≡ some user)
        × (issue_token lib service user.id user.username w.now ≡ some token)
  unfolding refresh_handler
  refresh_handler-made header body token user secs w w' h =
      let (_, h1) = require-passed _ _ _ _ w w' (λ e. cc e) h in
      let (unverified, _, h2) = or_reply-passed _ _ _ _ w w' (λ e. cc e) h1 in
      let (claims, _, h3) = or_reply-passed _ _ _ _ w w' (λ e. cc e) h2 in
      let (_, h4) = require-passed _ _ _ _ w w' (λ e. cc e) h3 in
      let (id, _, h5) = or_reply-passed _ _ _ _ w w' (λ e. cc e) h4 in
      let h6 = clock-passed _ w h5 in
      let (u, parsed, h7) = or_reply-passed _ _ _ _ w w' (λ e. cc e) h6 in
      let (issued, made, h8) = or_reply-passed _ _ _ _ w w' (λ e. cc e) h7 in
      same_session header body token issued user u secs w w' parsed made h8

  -- Where jwt accepts a token until its expiry, and up to the exactness of numbers below 2 ^ 53: a
  -- refresh is answered with a token only when the token that was sent is still valid, and then
  -- names the same user as before; until a new expiry, counted from the refresh, every request with
  -- the new token is passed on by the middleware with this user.
  pub refreshed_token_passes :
      {B A : Type 0} (header : Text) (body : Bool × Text) (token : Text) (user : TokenUser)
      (secs : ℕ) (w w' v : World) (served : TokenUser → Handler B A) (h q : Text) (is_get : Bool)
      → AcceptsUntilExpiry lib
      → w.now + service.expiry < 2 ^ 53
      → refresh_handler lib service header body w ≡ (stop (json 200 (session token user secs)), w')
      → credentials h is_get q ≡ bearer ++ token
      → v.now < w.now + service.expiry
      → (parse_token lib service (refresh_token lib service header body) w.now ≡ some user)
        × (middleware lib service h is_get q served v ≡ served user v)
  refreshed_token_passes header body token user secs w w' v served h q is_get accepts exact answer
        sent early =
      let (parsed, made) = refresh_handler-made header body token user secs w w' answer in
      let nameable =
        parse_token-IsNameable (refresh_token lib service header body) w.now user parsed in
      (
        parsed,
        middleware-passes lib service served h is_get q token sent v user
            (parse_issued lib service user token w.now made exact v.now accepts nameable early),
      )
