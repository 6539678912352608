-- ===== src/GoPath/Split.antt =====
-- Cutting a path at its slashes and joining it again.
use my_personal_cloud.Prelude.{
  ℕ, ◌≡◌, ◌≢◌, refl, ◌++◌, ◌==◌, List, [], ◌∷◌, Text, arith, All, nat_eq, Bool-cases, inl, inr,
}
use my_personal_cloud.GoPath.{
  slash, extend, split, join, trim_slashes, last_of, base, trim_left, trim_right, trim_space,
}

abbrev pub NoSlash : Text → Type 0
NoSlash = All (λ c. c ≢ slash)

-- What holds of every character of a path holds of the characters of its elements.
module _ (P : ℕ → Type 0) where
  extend-All : (c : ℕ) (ws : List Text) → P c → All (All P) ws → All (All P) (extend c ws)
  extend-All c [] p h = ((p, tt), tt)
  extend-All c (w ∷ ws) p h = ((p, h.0), h.1)

  pub split-All : (s : Text) → All P s → All (All P) (split s)
  unfolding split
  split-All [] h = (tt, tt)
  split-All (c ∷ s) h = elim (Bool-cases (nat_eq c slash)) [
    | inl e ↦ rw e (tt, split-All s h.1)
    | inr e ↦ rw e (extend-All c (split s) h.0 (split-All s h.1))
  ]

  pub last_of-All : (ws : List Text) → All (All P) ws → All P (last_of ws)
  last_of-All [] h = tt
  last_of-All (w ∷ []) h = h.0
  last_of-All (w ∷ v ∷ ws) h = last_of-All (v ∷ ws) h.1

  pub trim_slashes-All : (s : Text) → All P s → All P (trim_slashes s)
  unfolding trim_slashes
  trim_slashes-All [] h = tt
  trim_slashes-All (c ∷ s) h = ground (arith, trim_slashes-All s h.1)

  trim_left-All : (s : Text) → All P s → All P (trim_left s)
  unfolding trim_left
  trim_left-All [] h = tt
  trim_left-All (c ∷ s) h = ground (arith, trim_left-All s h.1)

  trim_right-All : (s : Text) → All P s → All P (trim_right s)
  unfolding trim_right
  trim_right-All [] h = tt
  trim_right-All (c ∷ s) h = ground (arith, trim_right-All s h.1)

  pub trim_space-All : (s : Text) → All P s → All P (trim_space s)
  unfolding trim_space
  trim_space-All s h = trim_right-All (trim_left s) (trim_left-All s h)

pub split-NoSlash : (s : Text) → All NoSlash (split s)
unfolding split
split-NoSlash [] = (tt, tt)
split-NoSlash (c ∷ s) = elim (Bool-cases (nat_eq c slash)) [
  | inl e ↦ rw e (tt, split-NoSlash s)
  | inr e ↦ rw e (extend-All (λ d. d ≢ slash) c (split s) (ground arith) (split-NoSlash s))
]

last_of-NoSlash : (ws : List Text) → All NoSlash ws → NoSlash (last_of ws)
last_of-NoSlash [] h = tt
last_of-NoSlash (w ∷ []) h = h.0
last_of-NoSlash (w ∷ v ∷ ws) h = last_of-NoSlash (v ∷ ws) h.1

-- The base of a path that is not "/" has no slash.
pub base-NoSlash : (p : Text) → base p ≢ slash ∷ [] → NoSlash (base p)
unfolding base
base-NoSlash [] h = (omega arith, tt)
base-NoSlash (c ∷ s) h =
    let w = last_of (split (trim_slashes (c ∷ s))) in
    let q : NoSlash w = last_of-NoSlash _ (split-NoSlash (trim_slashes (c ∷ s))) in
    elim (Bool-cases (w == [])) [ inl e ↦ absurd (h (rw e)) | inr e ↦ rw e q ]

pub split-cons : (s : Text) → (w : Text) × (ws : List Text) × (split s ≡ w ∷ ws)
unfolding split
split-cons [] = ([], [], refl)
split-cons (c ∷ s) = elim (Bool-cases (nat_eq c slash)) [
  | inl e ↦ ([], split s, rw e)
  | inr e ↦ let (w, ws, q) = split-cons s in (c ∷ w, ws, rw (e, q))
]

pub split-append : (a b : Text) → split (a ++ slash ∷ b) ≡ split a ++ split b
unfolding split
split-append [] b = refl
split-append (c ∷ a) b = elim (Bool-cases (nat_eq c slash)) [
  | inl e ↦ rw (e, split-append a b)
  | inr e ↦ let (w, ws, q) = split-cons a in rw (e, split-append a b, q)
]

pub split_of_NoSlash : (w : Text) → NoSlash w → split w ≡ w ∷ []
unfolding split
split_of_NoSlash [] h = refl
split_of_NoSlash (c ∷ w) h = ground (arith, split_of_NoSlash w h.1)

pub split-join : (w : Text) (ws : List Text) → All NoSlash (w ∷ ws) → split (join (w ∷ ws)) ≡ w ∷ ws
unfolding join
split-join w [] h = split_of_NoSlash w h.0
split-join w (v ∷ ws) h =
    rw (split-append w (join (v ∷ ws)), split_of_NoSlash w h.0, split-join v ws h.1)
