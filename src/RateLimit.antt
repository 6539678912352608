-- ===== src/RateLimit.antt =====
-- The sliding-window limiter of internal/ratelimit/ratelimit.go: `Limiter` without its mutex,
-- channel and ticker, as each operation runs under the mutex. Times are in nanoseconds since the
-- start of the server; `t.After(now.Add(-window))` is written `now < t + window`, which is the same
-- and needs no negative time.
pub mod Entries
pub mod Window
pub mod Bound
pub mod Cleanup
pub mod Recovery
use my_personal_cloud.Prelude.{
  ℕ, zero, suc, ◌+◌, ◌-◌, ◌*◌, ◌^◌, ◌++◌, ◌==◌, Bool, true, false, not, ◌&&◌, ◌||◌, List, [], ◌∷◌,
  Option, none, some, Text, codes, nat_eq, ltb, leb, length, filter, take, drop, if◌then◌else◌,
}
use my_personal_cloud.GoPath.{trim_space}

-- The times of the requests that were let through, oldest first, for each client address.
pub record Limiter : Type 0 where
  pub entries : List (Text × List ℕ)
  pub limit : ℕ
  pub window : ℕ

abbrev pub minute : ℕ
minute = 60 * 10 ^ 9

-- A limit or a window below 0 acts as 0.
unfoldable pub new : ℕ → ℕ → Limiter
new limit window = record {
  entries = [];
  limit = limit;
  window = if nat_eq window 0 then minute else window;
}

unfoldable pub times_at : Text → List (Text × List ℕ) → List ℕ
times_at ip [] = []
times_at ip ((j, ts) ∷ es) = if j == ip then ts else times_at ip es

unfoldable pub set_times : Text → List ℕ → List (Text × List ℕ) → List (Text × List ℕ)
set_times ip ts [] = (ip, ts) ∷ []
set_times ip ts ((j, us) ∷ es) = if j == ip then (j, ts) ∷ es else (j, us) ∷ set_times ip ts es

abbrev pub is_fresh : ℕ → ℕ → ℕ → Bool
is_fresh window now t = ltb now (t + window)

-- `Allow` at a time, for the address that `real_ip` gives.
unfoldable pub allow : Text → ℕ → Limiter → Bool × Limiter
allow ip now l =
    let valid = filter (is_fresh l.window now) (times_at ip l.entries) in
    if leb l.limit (length valid)
    then (false, record l { entries = set_times ip valid l.entries })
    else (true, record l { entries = set_times ip (valid ++ now ∷ []) l.entries })

unfoldable pub last_time : ℕ → List ℕ → ℕ
last_time t [] = t
last_time t (u ∷ us) = last_time u us

abbrev pub is_stale : ℕ → ℕ → List ℕ → Bool
is_stale window now [] = true
is_stale window now (t ∷ ts) = ltb (last_time t ts + 2 * window) now

unfoldable pub drop_stale : ℕ → ℕ → List (Text × List ℕ) → List (Text × List ℕ)
drop_stale window now [] = []
drop_stale window now ((ip, ts) ∷ es) =
    let rest = drop_stale window now es in if is_stale window now ts then rest else (ip, ts) ∷ rest

-- `purge` at a time.
unfoldable pub purge : ℕ → Limiter → Limiter
purge now l = record l { entries = drop_stale l.window now l.entries }

unfoldable pub index : ℕ → Text → Option ℕ
index c [] = none
index c (d ∷ s) =
    if nat_eq d c then some 0 else elim (index c s) [ none ↦ none | some i ↦ some (suc i) ]

unfoldable pub last_index : ℕ → Text → Option ℕ
last_index c [] = none
last_index c (d ∷ s) = elim (last_index c s) [
  | none ↦ if nat_eq d c then some 0 else none
  | some i ↦ some (suc i)
]

abbrev pub is_absent : Option ℕ → Bool
is_absent none = true
is_absent (some i) = false

-- The host of a bracketed address: what is between the brackets, where the last colon follows
-- them.
unfoldable pub bracketed_host : Text → ℕ → Option ℕ → Option Text
bracketed_host s i none = none
bracketed_host s i (some end) =
    if nat_eq (end + 1) i
      && is_absent (index b'[' (drop 1 s))
      && is_absent (index b']' (drop (end + 1) s))
    then some (take (end - 1) (drop 1 s))
    else none

unfoldable pub plain_host : Text → ℕ → Option Text
plain_host s i =
    if is_absent (index b':' (take i s)) && is_absent (index b'[' s) && is_absent (index b']' s)
    then some (take i s)
    else none

abbrev pub host_at : Text → Option ℕ → Option Text
host_at s none = none
host_at [] (some i) = none
host_at (c ∷ s) (some i) =
    if nat_eq c b'[' then bracketed_host (c ∷ s) i (index b']' (c ∷ s)) else plain_host (c ∷ s) i

-- The host of `net.SplitHostPort`, or `none` for an error.
unfoldable pub split_host : Text → Option Text
split_host s = host_at s (last_index b':' s)

unfoldable pub before_comma : Text → Text
before_comma [] = []
before_comma (c ∷ s) = if nat_eq c b',' then [] else c ∷ before_comma s

abbrev pub or_whole : Text → Option Text → Text
or_whole s none = s
or_whole s (some host) = host

-- `RealIP` of the headers X-Forwarded-For and X-Real-IP, "" where absent, and the remote address.
unfoldable pub real_ip : Text → Text → Text → Text
real_ip forwarded real remote =
    let first = trim_space (before_comma forwarded) in
    if not (forwarded == []) && not (first == [])
    then first
    else if not (real == [])
    then real
    else or_whole remote (split_host remote)

-- `Middleware`: the rejection of a request, or what the next handler does.
unfoldable pub middleware {ℓ} : {R : Type ℓ} → R → R → Text → ℕ → Limiter → R × Limiter
middleware rejected served ip now l =
    let (allowed, l') = allow ip now l in (if allowed then served else rejected, l')
