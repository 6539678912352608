-- ===== src/RateLimit/Entries.antt =====
-- The map of the limiter as an association list, and the lists of times in it.
use my_personal_cloud.Prelude.{
  ℕ, ◌+◌, ◌*◌, ◌≤◌, ◌<◌, ◌≡◌, ◌≢◌, refl, ◌++◌, ◌==◌, eq_iff, Bool, true, List, [], ◌∷◌, Text, arith,
  All, Bool-cases, inl, inr, filter, if◌then◌else◌,
}
use my_personal_cloud.RateLimit.{times_at, set_times, is_fresh, last_time, is_stale, drop_stale}

pub times_at-set_times :
    (ip j : Text) (ts : List ℕ) (es : List (Text × List ℕ))
    → times_at j (set_times ip ts es) ≡ (if ip == j then ts else times_at j es)
unfolding times_at set_times
times_at-set_times ip j ts [] = refl
times_at-set_times ip j ts ((k, us) ∷ es) =
    ground (arith, eq_iff k ip, eq_iff k j, eq_iff ip j, times_at-set_times ip j ts es)

abbrev Absent : Text → List (Text × List ℕ) → Type 0
Absent ip = All (λ e. e.0 ≢ ip)

-- No address has two entries.
abbrev pub IsMap : List (Text × List ℕ) → Type 0
IsMap [] = Unit
IsMap ((ip, ts) ∷ es) = Absent ip es × IsMap es

set_times-Absent :
    (ip j : Text) (ts : List ℕ) (es : List (Text × List ℕ))
    → j ≢ ip
    → Absent ip es
    → Absent ip (set_times j ts es)
unfolding set_times
set_times-Absent ip j ts [] h k = (h, tt)
set_times-Absent ip j ts ((i, us) ∷ es) h k =
    ground (arith, eq_iff i j, set_times-Absent ip j ts es h k.1)

pub set_times-IsMap :
    (ip : Text) (ts : List ℕ) (es : List (Text × List ℕ)) → IsMap es → IsMap (set_times ip ts es)
unfolding set_times
set_times-IsMap ip ts [] h = (tt, tt)
set_times-IsMap ip ts ((j, us) ∷ es) h = elim (Bool-cases (j == ip)) [
  | inl e ↦ rw e h
  | inr e ↦ rw e (
    set_times-Absent j ip ts es (λ q. ground (arith, eq_iff j ip)) h.0,
    set_times-IsMap ip ts es h.1,
  )
]

drop_stale-Absent :
    (w now : ℕ) (ip : Text) (es : List (Text × List ℕ))
    → Absent ip es
    → Absent ip (drop_stale w now es)
unfolding drop_stale
drop_stale-Absent w now ip [] h = tt
drop_stale-Absent w now ip ((j, ts) ∷ es) h = elim (Bool-cases (is_stale w now ts)) [
  | inl e ↦ rw e (drop_stale-Absent w now ip es h.1)
  | inr e ↦ rw e (h.0, drop_stale-Absent w now ip es h.1)
]

pub drop_stale-IsMap :
    (w now : ℕ) (es : List (Text × List ℕ)) → IsMap es → IsMap (drop_stale w now es)
unfolding drop_stale
drop_stale-IsMap w now [] h = tt
drop_stale-IsMap w now ((j, ts) ∷ es) h = elim (Bool-cases (is_stale w now ts)) [
  | inl e ↦ rw e (drop_stale-IsMap w now es h.1)
  | inr e ↦ rw e (drop_stale-Absent w now j es h.0, drop_stale-IsMap w now es h.1)
]

times_at_of_Absent : (ip : Text) (es : List (Text × List ℕ)) → Absent ip es → times_at ip es ≡ []
unfolding times_at
times_at_of_Absent ip [] h = refl
times_at_of_Absent ip ((j, ts) ∷ es) h = ground (arith, eq_iff j ip, times_at_of_Absent ip es h.1)

-- A purge empties the stale entries and no others.
pub times_at-drop_stale :
    (w now : ℕ) (ip : Text) (es : List (Text × List ℕ))
    → IsMap es
    → times_at ip (drop_stale w now es)
      ≡ (if is_stale w now (times_at ip es) then [] else times_at ip es)
unfolding times_at drop_stale
times_at-drop_stale w now ip [] h = refl
times_at-drop_stale w now ip ((j, ts) ∷ es) h = elim (Bool-cases (j == ip)) [
  | inl e ↦ elim (Bool-cases (is_stale w now ts)) [
    | inl s ↦
        rw (e, s)
          (times_at_of_Absent ip (drop_stale w now es)
            (drop_stale-Absent w now ip es (rw ((eq_iff j ip).0 e) at h.0)))
    | inr s ↦ rw (e, s, times_at, e) refl
  ]
  | inr e ↦ elim (Bool-cases (is_stale w now ts)) [
    | inl s ↦ rw (e, s) (times_at-drop_stale w now ip es h.1)
    | inr s ↦ rw (e, s, times_at, e) (times_at-drop_stale w now ip es h.1)
  ]
]

-- Times in the order of the clock.
abbrev pub Ascending : ℕ → List ℕ → Type 0
Ascending lo [] = Unit
Ascending lo (t ∷ ts) = (lo ≤ t) × Ascending t ts

pub Ascending-weaken : (a b : ℕ) (ts : List ℕ) → a ≤ b → Ascending b ts → Ascending a ts
Ascending-weaken a b [] h k = tt
Ascending-weaken a b (t ∷ ts) h k = (omega arith, k.1)

pub Ascending-filter :
    (p : ℕ → Bool) (lo : ℕ) (ts : List ℕ) → Ascending lo ts → Ascending lo (filter p ts)
Ascending-filter p lo [] h = tt
Ascending-filter p lo (t ∷ ts) h = elim (Bool-cases (p t)) [
  | inl e ↦ rw e (h.0, Ascending-filter p t ts h.1)
  | inr e ↦ rw e (Ascending-weaken lo t (filter p ts) h.0 (Ascending-filter p t ts h.1))
]

pub Ascending-append :
    (lo now : ℕ) (ts : List ℕ)
    → lo ≤ now
    → Ascending lo ts
    → All (λ t. t ≤ now) ts
    → Ascending lo (ts ++ now ∷ [])
Ascending-append lo now [] h k m = (h, tt)
Ascending-append lo now (t ∷ ts) h k m = (k.0, Ascending-append t now ts m.0 k.1 m.1)

le-last_time : (t : ℕ) (ts : List ℕ) → Ascending t ts → t ≤ last_time t ts
unfolding last_time
le-last_time t [] h = omega arith
le-last_time t (u ∷ us) h = omega (arith, le-last_time u us h.1)

-- Nothing in a stale entry is within the window any more.
pub filter_stale :
    (w now later : ℕ) (ts : List ℕ)
    → Ascending 0 ts
    → is_stale w now ts ≡ true
    → now ≤ later
    → filter (is_fresh w later) ts ≡ []
unfolding last_time
filter_stale w now later [] h s le = refl
filter_stale w now later (t ∷ ts) h s le = go t ts h.1 (ground arith)
  where
    go :
        (u : ℕ) (us : List ℕ)
        → Ascending u us
        → last_time u us + 2 * w < now
        → filter (is_fresh w later) (u ∷ us) ≡ []
    go u [] k m = ground (arith, le-last_time u [] k)
    go u (v ∷ us) k m = ground (arith, le-last_time u (v ∷ us) k, go v us k.1)

pub filter_twice :
    (w now later : ℕ) (ts : List ℕ)
    → now ≤ later
    → filter (is_fresh w later) (filter (is_fresh w now) ts) ≡ filter (is_fresh w later) ts
filter_twice w now later [] h = refl
filter_twice w now later (t ∷ ts) h = ground (arith, filter_twice w now later ts h)
