-- ===== src/RateLimit/Bound.antt =====
-- How many requests of one address the limiter lets through within any window.
use mathlib.Core.List.{append_assoc, append-nil}
use my_personal_cloud.Prelude.{
  ℕ, ◌≤◌, ◌<◌, ◌≡◌, ◌++◌, ◌==◌, eq_iff, Bool, true, false, ◌&&◌, List, [], ◌∷◌, Text, arith,
  Bool-cases, inl, inr, leb, length, length-append, filter, filter-append,
}
use my_personal_cloud.RateLimit.{Limiter, new, is_fresh, allow, purge}
use my_personal_cloud.RateLimit.Window.{
  Event, request, sweep, InOrder, admitted, noted, times_of, times_of-append, log_allow, Tracks,
  purge-Tracks, allow-Tracks, allow-log_allow, allow-SameRules, new-Tracks,
}

-- The times in (now - window, now].
abbrev pub within : ℕ → ℕ → ℕ → Bool
within window now t = leb t now && is_fresh window now t

abbrev IsBounded : ℕ → ℕ → List (Text × ℕ) → Type 0
IsBounded limit window log =
    (ip : Text) (now : ℕ) → length (filter (within window now) (times_of ip log)) ≤ limit

-- A window that ends later holds no more of the old times.
later_window :
    (window t now : ℕ) (ts : List ℕ)
    → t ≤ now
    → length (filter (within window now) ts) ≤ length (filter (is_fresh window t) ts)
later_window window t now [] h = omega arith
later_window window t now (u ∷ ts) h = ground (arith, later_window window t now ts h)

bounded_append :
    (limit window t now : ℕ) (ts : List ℕ)
    → length (filter (within window now) ts) ≤ limit
    → length (filter (is_fresh window t) ts) < limit
    → length (filter (within window now) (ts ++ t ∷ [])) ≤ limit
bounded_append limit window t now ts h k =
    rw
      (
        filter-append (within window now) ts (t ∷ []),
        length-append (filter (within window now) ts) (filter (within window now) (t ∷ [])),
      )
      (ground (arith, later_window window t now ts))

noted-IsBounded :
    (limit window t : ℕ) (log : List (Text × ℕ)) (ip : Text) (b : Bool)
    → b ≡ log_allow limit window log ip t
    → IsBounded limit window log
    → IsBounded limit window (log ++ noted b (ip, t))
unfolding log_allow
noted-IsBounded limit window t log ip false e h j now = rw (append-nil log) (h j now)
noted-IsBounded limit window t log ip true e h j now = elim (Bool-cases (ip == j)) [
  | inl q ↦
      let free : length (filter (is_fresh window t) (times_of ip log)) < limit = ground arith in
      let few : length (filter (is_fresh window t) (times_of j log)) < limit =
        rw ((eq_iff ip j).0 q) at free in
      rw (times_of-append j ip t log, q)
        (bounded_append limit window t now (times_of j log) (h j now) few)
  | inr q ↦ rw (times_of-append j ip t log, q) (h j now)
]

admitted-IsBounded :
    (l : Limiter) (log : List (Text × ℕ)) (now : ℕ) (es : List Event)
    → Tracks l log now
    → InOrder now es
    → IsBounded l.limit l.window log
    → IsBounded l.limit l.window (log ++ admitted l es)
unfolding admitted purge
admitted-IsBounded l log now [] h o b = rw (append-nil log) b
admitted-IsBounded l log now (sweep t ∷ es) h o b =
    admitted-IsBounded (purge t l) log t es (purge-Tracks l log now t h o.0) o.1 b
admitted-IsBounded l log now (request ip t ∷ es) h o b =
    let (limit, window) = allow-SameRules ip t l in
    let log' = log ++ noted (allow ip t l).0 (ip, t) in
    let bounded : IsBounded (allow ip t l).1.limit (allow ip t l).1.window log' =
      rw (limit, window)
        (noted-IsBounded l.limit l.window t log ip (allow ip t l).0
          (allow-log_allow l log now t h o.0 ip) b) in
    let rest =
      admitted-IsBounded (allow ip t l).1 log' t es (allow-Tracks l log now t h o.0 ip) o.1
        bounded in
    rw
      (
        limit,
        window,
        append_assoc log (noted (allow ip t l).0 (ip, t)) (admitted (allow ip t l).1 es),
      )
      at rest

-- In any run under a clock that does not go back, with the cleanup at any times, at most `limit`
-- requests of one address are let through within the window that ends at any time.
pub admitted-le-limit :
    (limit window : ℕ) (es : List Event)
    → InOrder 0 es
    → (ip : Text) (now : ℕ)
    → length (
        filter
          (within (new limit window).window now)
          (times_of ip (admitted (new limit window) es)))
      ≤ limit
unfolding new times_of
admitted-le-limit limit window es o =
    admitted-IsBounded (new limit window) [] 0 es (new-Tracks limit window) o
      (λ ip now. omega arith)
