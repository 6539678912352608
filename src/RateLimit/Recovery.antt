-- ===== src/RateLimit/Recovery.antt =====
-- A client that the limiter of internal/ratelimit/ratelimit.go has refused is let through again.
use mathlib.Core.List.{append_assoc, append-nil}
use my_personal_cloud.Prelude.{
  ℕ, ◌≤◌, ◌+◌, ◌≡◌, refl, ap, ◌++◌, true, List, [], ◌∷◌, Text, arith, All, filter,
}
use my_personal_cloud.RateLimit.{Limiter, new, is_fresh, allow, purge}
use my_personal_cloud.RateLimit.Window.{
  Event, request, sweep, InOrder, decisions, admitted, log_allow, noted, times_of, Tracks,
  purge-Tracks, allow-Tracks, allow-log_allow, allow-SameRules, new-Tracks,
}

-- The times that are at least a window before another.
abbrev pub Expired : ℕ → ℕ → List ℕ → Type 0
Expired window now ts = All (λ t. t + window ≤ now) ts

filter-Expired :
    (window now : ℕ) (ts : List ℕ) → Expired window now ts → filter (is_fresh window now) ts ≡ []
filter-Expired window now [] h = refl
filter-Expired window now (t ∷ ts) h = ground (arith, filter-Expired window now ts h.1)

decisions-free :
    (l : Limiter) (log : List (Text × ℕ)) (before : ℕ) (es : List Event) (ip : Text) (now : ℕ)
    → Tracks l log before
    → 1 ≤ l.limit
    → InOrder before (es ++ request ip now ∷ [])
    → Expired l.window now (times_of ip (log ++ admitted l es))
    → decisions l (es ++ request ip now ∷ []) ≡ decisions l es ++ true ∷ []
unfolding decisions admitted purge log_allow
decisions-free l log before [] ip now h k o p =
    let same = allow-log_allow l log before now h o.0 ip in
    rw (same, filter-Expired l.window now (times_of ip log) (rw (append-nil log) at p))
      (ground arith)
decisions-free l log before (sweep t ∷ es) ip now h k o p =
    decisions-free (purge t l) log t es ip now (purge-Tracks l log before t h o.0) k o.1 p
decisions-free l log before (request j t ∷ es) ip now h k o p =
    let (limit, window) = allow-SameRules j t l in
    let b = (allow j t l).0 in
    let p' : Expired l.window now
        (times_of ip ((log ++ noted b (j, t)) ++ admitted (allow j t l).1 es)) =
      rw (append_assoc log (noted b (j, t)) (admitted (allow j t l).1 es)) p in
    ap (λ bs. b ∷ bs)
      (decisions-free (allow j t l).1 (log ++ noted b (j, t)) t es ip now
        (allow-Tracks l log before t h o.0 j) (rw limit k) o.1 (rw window p'))

-- With a limit of at least one, and whatever happened before: a request that comes at least a
-- window after every earlier request of its address that was let through, is let through itself,
-- however many were refused in between. The events are in the order of the clock, the cleanup
-- runs at any times.
pub refused_client_recovers :
    (limit window : ℕ) (es : List Event) (ip : Text) (now : ℕ)
    → 1 ≤ limit
    → InOrder 0 (es ++ request ip now ∷ [])
    → Expired (new limit window).window now (times_of ip (admitted (new limit window) es))
    → decisions (new limit window) (es ++ request ip now ∷ [])
      ≡ decisions (new limit window) es ++ true ∷ []
unfolding new
refused_client_recovers limit window es ip now k o p =
    decisions-free (new limit window) [] 0 es ip now (new-Tracks limit window) k o p
