-- ===== src/RateLimit/Window.antt =====
-- The limiter against a log of all requests that were let through: runs of requests and purges
-- under a clock that does not go back.
use mathlib.Core.List.{append-nil}
use my_personal_cloud.Prelude.{
  ℕ, ◌≤◌, ◌≡◌, refl, sym, ap, ◌∙◌, ◌++◌, ◌==◌, eq_iff, eq_refl, Bool, true, false, List, [], ◌∷◌,
  Text, arith, All, All-append, All-filter, Bool-cases, inl, inr, ltb, leb, length, filter,
  filter-append, if◌then◌else◌,
}
use my_personal_cloud.RateLimit.{
  Limiter, new, times_at, set_times, is_fresh, is_stale, allow, purge,
}
use my_personal_cloud.RateLimit.Entries.{
  times_at-set_times, IsMap, set_times-IsMap, drop_stale-IsMap, times_at-drop_stale, Ascending,
  Ascending-filter, Ascending-append, filter_stale, filter_twice,
}

-- A request of an address, or a run of the cleanup, at a time.
pub data Event : Type 0 where
  request : Text → ℕ → Event
  sweep : ℕ → Event

abbrev pub time_of : Event → ℕ
time_of (request ip t) = t
time_of (sweep t) = t

abbrev pub InOrder : ℕ → List Event → Type 0
InOrder now [] = Unit
InOrder now (e ∷ es) = (now ≤ time_of e) × InOrder (time_of e) es

-- The answers of the limiter to the requests of a run.
unfoldable pub decisions : Limiter → List Event → List Bool
decisions l [] = []
decisions l (request ip t ∷ es) = let (b, l') = allow ip t l in b ∷ decisions l' es
decisions l (sweep t ∷ es) = decisions (purge t l) es

abbrev pub noted : Bool → Text × ℕ → List (Text × ℕ)
noted true x = x ∷ []
noted false x = []

-- The requests that it lets through.
unfoldable pub admitted : Limiter → List Event → List (Text × ℕ)
admitted l [] = []
admitted l (request ip t ∷ es) = let (b, l') = allow ip t l in noted b (ip, t) ++ admitted l' es
admitted l (sweep t ∷ es) = admitted (purge t l) es

unfoldable pub times_of : Text → List (Text × ℕ) → List ℕ
times_of ip [] = []
times_of ip ((j, t) ∷ log) = if j == ip then t ∷ times_of ip log else times_of ip log

-- The specification never forgets a request that it has let through, and lets a request through when
-- fewer than the limit of those of its address lie within the window; refused requests do not count.
unfoldable pub log_allow : ℕ → ℕ → List (Text × ℕ) → Text → ℕ → Bool
log_allow limit window log ip now =
    ltb (length (filter (is_fresh window now) (times_of ip log))) limit

unfoldable pub log_decisions : ℕ → ℕ → List (Text × ℕ) → List Event → List Bool
log_decisions limit window log [] = []
log_decisions limit window log (request ip t ∷ es) =
    let b = log_allow limit window log ip t in
    b ∷ log_decisions limit window (log ++ noted b (ip, t)) es
log_decisions limit window log (sweep t ∷ es) = log_decisions limit window log es

pub times_of-append :
    (j ip : Text) (t : ℕ) (log : List (Text × ℕ))
    → times_of j (log ++ (ip, t) ∷ [])
      ≡ (if ip == j then times_of j log ++ t ∷ [] else times_of j log)
unfolding times_of
times_of-append j ip t [] = ground arith
times_of-append j ip t ((k, u) ∷ log) = ground (arith, times_of-append j ip t log)

-- The entries hold what the log holds within the window, in order, and nothing of the future.
pub record Tracks (l : Limiter) (log : List (Text × ℕ)) (now : ℕ) : Type 0 where
  pub is_map : IsMap l.entries
  pub same :
      (ip : Text) (later : ℕ)
      → now ≤ later
      → filter (is_fresh l.window later) (times_at ip l.entries)
        ≡ filter (is_fresh l.window later) (times_of ip log)
  pub ascending : (ip : Text) → Ascending 0 (times_at ip l.entries)
  pub past : (ip : Text) → All (λ t. t ≤ now) (times_at ip l.entries)

All-later : (now t : ℕ) (ts : List ℕ) → now ≤ t → All (λ u. u ≤ now) ts → All (λ u. u ≤ t) ts
All-later now t [] h k = tt
All-later now t (u ∷ ts) h k = (omega arith, All-later now t ts h k.1)

-- What a purge leaves of an entry.
kept_same :
    (w t later : ℕ) (ts : List ℕ)
    → Ascending 0 ts
    → t ≤ later
    → filter (is_fresh w later) (if is_stale w t ts then [] else ts) ≡ filter (is_fresh w later) ts
kept_same w t later ts asc k = elim (Bool-cases (is_stale w t ts)) [
  | inl e ↦ rw (e, filter_stale w t later ts asc e k)
  | inr e ↦ rw e
]

kept_all : (P : List ℕ → Type 0) (b : Bool) (ts : List ℕ) → P [] → P ts → P (if b then [] else ts)
kept_all P true ts h k = h
kept_all P false ts h k = k

-- What the entry of an address becomes when another one is set.
set_all :
    (P : List ℕ → Type 0) (b : Bool) (ts us : List ℕ)
    → (b ≡ true → P ts)
    → (b ≡ false → P us)
    → P (if b then ts else us)
set_all P true ts us h k = h refl
set_all P false ts us h k = k refl

module _ (l : Limiter) (log : List (Text × ℕ)) (now t : ℕ) (h : Tracks l log now)
    (le : now ≤ t) where
  past_later : (ip : Text) → All (λ u. u ≤ t) (times_at ip l.entries)
  past_later ip = All-later now t (times_at ip l.entries) le (h.past ip)

  pub purge-Tracks : Tracks (purge t l) log t
  unfolding purge
  purge-Tracks = record {
    is_map = drop_stale-IsMap l.window t l.entries h.is_map;
    same = λ ip later k. rw (times_at-drop_stale l.window t ip l.entries h.is_map) (
        kept_same l.window t later (times_at ip l.entries) (h.ascending ip) k
        ∙ h.same ip later (omega arith));
    ascending = λ ip. rw (times_at-drop_stale l.window t ip l.entries h.is_map) (
        kept_all (Ascending 0) (is_stale l.window t (times_at ip l.entries)) (times_at ip l.entries)
          tt (h.ascending ip));
    past = λ ip. rw (times_at-drop_stale l.window t ip l.entries h.is_map) (
        kept_all (All (λ u. u ≤ t)) (is_stale l.window t (times_at ip l.entries))
          (times_at ip l.entries) tt (past_later ip));
  }

  -- A new entry for one address that agrees with the log after the request.
  set-Tracks :
      (ip : Text) (ts : List ℕ) (log' : List (Text × ℕ))
      → ((j : Text) → (ip == j) ≡ false → times_of j log' ≡ times_of j log)
      → ((later : ℕ)
          → t ≤ later
          → filter (is_fresh l.window later) ts
            ≡ filter (is_fresh l.window later) (times_of ip log'))
      → Ascending 0 ts
      → All (λ u. u ≤ t) ts
      → Tracks (record l { entries = set_times ip ts l.entries }) log' t
  set-Tracks ip ts log' others agree asc old = record {
    is_map = set_times-IsMap ip ts l.entries h.is_map;
    same = λ j later k. rw (times_at-set_times ip j ts l.entries) (
        set_all
          (λ us.
            filter (is_fresh l.window later) us
            ≡ filter (is_fresh l.window later) (times_of j log'))
          (ip == j) ts (times_at j l.entries) (λ e. rw (← (eq_iff ip j).0 e) (agree later k))
          (λ e. rw (others j e) (h.same j later (omega arith))));
    ascending = λ j.
        rw (times_at-set_times ip j ts l.entries) (
          set_all (Ascending 0) (ip == j) ts (times_at j l.entries) (λ _. asc)
            (λ _. h.ascending j));
    past = λ j. rw (times_at-set_times ip j ts l.entries) (
        set_all (All (λ u. u ≤ t)) (ip == j) ts (times_at j l.entries) (λ _. old)
          (λ _. past_later j));
  }

  abbrev valid : Text → List ℕ
  valid ip = filter (is_fresh l.window t) (times_at ip l.entries)

  valid_agrees :
      (ip : Text) (later : ℕ)
      → t ≤ later
      → filter (is_fresh l.window later) (valid ip)
        ≡ filter (is_fresh l.window later) (times_of ip log)
  valid_agrees ip later k =
      filter_twice l.window t later (times_at ip l.entries) k ∙ h.same ip later (omega arith)

  valid_past : (ip : Text) → All (λ u. u ≤ t) (valid ip)
  valid_past ip =
      All-filter (λ u. u ≤ t) (is_fresh l.window t) (times_at ip l.entries) (past_later ip)

  valid-Ascending : (ip : Text) → Ascending 0 (valid ip)
  valid-Ascending ip =
      Ascending-filter (is_fresh l.window t) 0 (times_at ip l.entries) (h.ascending ip)

  denied-Tracks :
      (ip : Text) → Tracks (record l { entries = set_times ip (valid ip) l.entries }) log t
  denied-Tracks ip =
      set-Tracks ip (valid ip) log (λ j e. refl) (valid_agrees ip) (valid-Ascending ip)
        (valid_past ip)

  appended_agrees :
      (ip : Text) (later : ℕ)
      → t ≤ later
      → filter (is_fresh l.window later) (valid ip ++ t ∷ [])
        ≡ filter (is_fresh l.window later) (times_of ip (log ++ (ip, t) ∷ []))
  appended_agrees ip later k =
      rw (times_of-append ip ip t log, eq_refl ip)
        (filter-append (is_fresh l.window later) (valid ip) (t ∷ [])
          ∙ ap (λ us. us ++ filter (is_fresh l.window later) (t ∷ [])) (valid_agrees ip later k)
          ∙ sym (filter-append (is_fresh l.window later) (times_of ip log) (t ∷ [])))

  allowed-Tracks :
      (ip : Text)
      → Tracks
          (record l { entries = set_times ip (valid ip ++ t ∷ []) l.entries })
          (log ++ (ip, t) ∷ [])
          t
  allowed-Tracks ip =
      set-Tracks ip (valid ip ++ t ∷ []) (log ++ (ip, t) ∷ [])
        (λ j e. rw (times_of-append j ip t log, e) refl) (appended_agrees ip)
        (Ascending-append 0 t (valid ip) (omega arith) (valid-Ascending ip) (valid_past ip))
        (All-append (λ u. u ≤ t) (valid ip) (t ∷ []) (valid_past ip) (omega arith, tt))

  -- The limiter answers a request as the specification does.
  pub allow-log_allow : (ip : Text) → (allow ip t l).0 ≡ log_allow l.limit l.window log ip t
  unfolding allow log_allow
  allow-log_allow ip = rw (← h.same ip t le) (ground arith)

  pub allow-Tracks :
      (ip : Text) → let (b, l') = allow ip t l in Tracks l' (log ++ noted b (ip, t)) t
  unfolding allow
  allow-Tracks ip = elim (Bool-cases (leb l.limit (length (valid ip)))) [
    | inl e ↦ rw (e, append-nil log) (denied-Tracks ip)
    | inr e ↦ rw e (allowed-Tracks ip)
  ]

abbrev pub SameRules : Limiter → Limiter → Type 0
SameRules l l' = (l'.limit ≡ l.limit) × (l'.window ≡ l.window)

pub allow-SameRules : (ip : Text) (t : ℕ) (l : Limiter) → SameRules l (allow ip t l).1
unfolding allow
allow-SameRules ip t l = ground arith

decisions_track :
    (l : Limiter) (log : List (Text × ℕ)) (now : ℕ) (es : List Event)
    → Tracks l log now
    → InOrder now es
    → decisions l es ≡ log_decisions l.limit l.window log es
unfolding decisions log_decisions purge
decisions_track l log now [] h o = refl
decisions_track l log now (sweep t ∷ es) h o =
    decisions_track (purge t l) log t es (purge-Tracks l log now t h o.0) o.1
decisions_track l log now (request ip t ∷ es) h o =
    let same = allow-log_allow l log now t h o.0 ip in
    let (limit, window) = allow-SameRules ip t l in
    let rest =
      decisions_track (allow ip t l).1 (log ++ noted (allow ip t l).0 (ip, t)) t es
        (allow-Tracks l log now t h o.0 ip) o.1 in
    rw (← same, rest, limit, window) refl

pub new-Tracks : (limit window : ℕ) → Tracks (new limit window) [] 0
unfolding new times_at times_of
new-Tracks limit window = record {
  is_map = tt;
  same = λ ip later k. refl;
  ascending = λ ip. tt;
  past = λ ip. tt;
}

-- For any requests and runs of the cleanup in the order of the clock, the limiter answers as one
-- that never forgets a request that it has let through, and lets a request through exactly when
-- fewer than the limit of those of the address lie within the window.
pub decisions_refine_log :
    (limit window : ℕ) (es : List Event)
    → InOrder 0 es
    → decisions (new limit window) es
      ≡ log_decisions (new limit window).limit (new limit window).window [] es
decisions_refine_log limit window es o =
    decisions_track (new limit window) [] 0 es (new-Tracks limit window) o
