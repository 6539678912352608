-- ===== src/Server/Logins.antt =====
-- Attempts to log in, one after the other, on the route of cmd/server/main.go.
use my_personal_cloud.Prelude.{
  ℕ, ◌*◌, ◌^◌, ◌≤◌, ◌≡◌, refl, ◌++◌, Bool, false, List, [], ◌∷◌, Option, Text, nat_eq, length,
  filter, Bool-cases, inl, inr, if◌then◌else◌,
}
use my_personal_cloud.World.{World, Response, Outcome, bare, error, json, stream, stop, next}
use my_personal_cloud.World.Triple.{
  Assertion, Triple, Post, bind-Triple, weaken, reply-Triple, pure-Triple, or_reply-Triple,
  clock-Triple,
}
use my_personal_cloud.World.Calls.{query-Triple}
use my_personal_cloud.RateLimit.{allow, minute, new, middleware as rate_limited}
use my_personal_cloud.RateLimit.Window.{Event, request, InOrder, admitted, noted, times_of}
use my_personal_cloud.RateLimit.Bound.{within, admitted-le-limit}
use my_personal_cloud.Auth.Tokens.{Library, Service}
use my_personal_cloud.Auth.Service.{
  AuthBody, Login, invalid_credentials, login_failed, granted, login, login_handler, answer_login,
}
use my_personal_cloud.Server.{Server, Carried, start, address, limited, route_login, nanoseconds}

-- An attempt at a time in seconds, with its decoded body.
pub record Attempt : Type 0 where
  pub carried : Carried
  pub body : Option (Text × Text)
  pub moment : ℕ

-- The clock has come to the time of the attempt.
abbrev pub arrive : Attempt → Server → Server
arrive a s = record s { world = record (s.world) { now = a.moment } }

abbrev pub is_throttled : Outcome AuthBody (Unit {0}) → Bool
is_throttled (stop (error n message)) = nat_eq n 429
is_throttled (stop (bare n)) = false
is_throttled (stop (json n body)) = false
is_throttled (stop (stream mime size disposition bytes)) = false
is_throttled (next a) = false

abbrev pub event_of : Attempt → Event
event_of a = request (address a.carried) (a.moment * 10 ^ 9)

abbrev pub events_of : List Attempt → List Event
events_of [] = []
events_of (a ∷ rest) = event_of a ∷ events_of rest

abbrev pub counted : Bool → Text × ℕ → List (Text × ℕ)
counted throttled x = if throttled then [] else x ∷ []

module _ (lib : Library) (service : Service) where
  -- The addresses and the times of the attempts that are not answered with 429.
  unfoldable pub tried : Server → List Attempt → List (Text × ℕ)
  tried s [] = []
  tried s (a ∷ rest) =
      let (answer, s') = route_login lib service a.carried a.body (arrive a s) in
      counted (is_throttled answer) (address a.carried, a.moment * 10 ^ 9) ++ tried s' rest

  abbrev Unthrottled : Response AuthBody → Assertion
  Unthrottled r db disk = is_throttled (stop r) ≡ false

  abbrev Anything : Assertion
  Anything db disk = Unit

  answer_login-Unthrottled :
      (result : Login)
      → Triple Anything Unthrottled (λ _. Anything) (answer_login lib service result)
  answer_login-Unthrottled invalid_credentials = reply-Triple _ (λ db disk p. refl)
  answer_login-Unthrottled login_failed = reply-Triple _ (λ db disk p. refl)
  answer_login-Unthrottled (granted token user) = reply-Triple _ (λ db disk p. refl)

  login_handler-Unthrottled :
      (body : Option (Text × Text))
      → Triple Anything Unthrottled (λ _. Anything) (login_handler lib service body)
  unfolding login_handler login
  login_handler-Unthrottled body = bind-Triple (or_reply-Triple body _ (λ db disk p. refl)) λ b.
      weaken (λ db disk p. tt)
        (bind-Triple
          (bind-Triple {Q = λ _. Anything} (query-Triple _ (λ db disk p. tt) (λ db disk p. tt))
            λ row. bind-Triple clock-Triple λ now. pure-Triple _ (λ db disk p. tt))
          λ result. answer_login-Unthrottled result)

  not_throttled :
      (o : Outcome AuthBody (Unit {0})) (w : World)
      → Post Unthrottled (λ _. Anything) o w.db w.disk
      → is_throttled o ≡ false
  not_throttled (stop r) w h = h
  not_throttled (next a) w h = refl

  handler_not_throttled :
      (body : Option (Text × Text)) (w : World)
      → is_throttled (login_handler lib service body w).0 ≡ false
  handler_not_throttled body w =
      not_throttled (login_handler lib service body w).0 (login_handler lib service body w).1
        ((login_handler-Unthrottled body).run w tt)

  -- One attempt, on the limiter.
  route_login-allow :
      (c : Carried) (body : Option (Text × Text)) (s : Server)
      → let (answer, s') = route_login lib service c body s in
        let (allowed, l) = allow (address c) (nanoseconds s) s.login_limiter in
        (counted (is_throttled answer) (address c, nanoseconds s)
          ≡ noted allowed (address c, nanoseconds s))
        × (s'.login_limiter ≡ l)
  unfolding route_login limited rate_limited
  route_login-allow c body s =
      elim (Bool-cases (allow (address c) (nanoseconds s) s.login_limiter).0) [
        | inl e ↦ rw (e, handler_not_throttled body s.world) (refl, refl)
        | inr e ↦ rw e (refl, refl)
      ]

  tried-admitted :
      (s : Server) (attempts : List Attempt)
      → tried s attempts ≡ admitted s.login_limiter (events_of attempts)
  unfolding tried admitted
  tried-admitted s [] = refl
  tried-admitted s (a ∷ rest) =
      let (now, after) = route_login-allow a.carried a.body (arrive a s) in
      rw (now, tried-admitted (route_login lib service a.carried a.body (arrive a s)).1 rest, after)
        refl

  -- Since the start of the server, at times that do not go back and with no cleanup in between: at
  -- most 5 attempts to log in from one address get another answer than 429 within the minute that
  -- ends at any time, whatever they send and whichever calls fail. Attempts that succeed count like
  -- the ones that fail.
  pub login_attempts_bounded :
      (w : World) (attempts : List Attempt) (ip : Text) (now : ℕ)
      → InOrder 0 (events_of attempts)
      → length (filter (within minute now) (times_of ip (tried (start w) attempts))) ≤ 5
  unfolding start new
  login_attempts_bounded w attempts ip now o =
      rw (tried-admitted (start w) attempts)
        (admitted-le-limit 5 minute (events_of attempts) o ip now)
