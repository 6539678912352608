-- ===== src/Files/Names/Sanitize.antt =====
-- What sanitizing leaves of a file name that a client sends.
use my_personal_cloud.Prelude.{
  ◌≡◌, ◌≢◌, refl, ◌==◌, eq_iff, [], ◌∷◌, Text, arith, All, inl, inr, ◌⊎◌, Bool-cases,
}
use my_personal_cloud.GoPath.{
  slash, dot, dots, base, replace_all, split, trim_slashes, last_of, trim_space, trim_left,
  trim_right, is_space,
}
use my_personal_cloud.GoPath.Split.{
  NoSlash, base-NoSlash, trim_space-All, split-All, last_of-All, trim_slashes-All,
}
use my_personal_cloud.GoPath.Canonical.{IsPlain}
use my_personal_cloud.Files.Names.{root_path, backslash, sanitize_filename}

abbrev pub NoBackslash : Text → Type 0
NoBackslash = All (λ c. c ≢ backslash)

replace_all-NoBackslash : (s : Text) → NoBackslash (replace_all backslash slash s)
unfolding replace_all
replace_all-NoBackslash [] = tt
replace_all-NoBackslash (c ∷ s) = (ground arith, replace_all-NoBackslash s)

base-NoBackslash : (s : Text) → NoBackslash s → NoBackslash (base s)
unfolding base
base-NoBackslash [] h = (omega arith, tt)
base-NoBackslash (c ∷ s) h =
    let w = last_of (split (trim_slashes (c ∷ s))) in
    let p : NoBackslash w =
      last_of-All (λ d. d ≢ backslash) _
        (split-All (λ d. d ≢ backslash) _ (trim_slashes-All (λ d. d ≢ backslash) (c ∷ s) h)) in
    elim (Bool-cases (w == [])) [ inl e ↦ rw e (omega arith, tt) | inr e ↦ rw e p ]

-- A name that can be an entry of a folder.
abbrev pub IsFileName : Text → Type 0
IsFileName n = IsPlain n × NoBackslash n

root_trimmed : trim_space root_path ≡ root_path
unfolding trim_space trim_left trim_right is_space ◌==◌
root_trimmed = refl

base_trimmed_NoSlash : (s : Text) → trim_space (base s) ≢ root_path → NoSlash (trim_space (base s))
base_trimmed_NoSlash s h =
    trim_space-All (λ c. c ≢ slash) (base s) (base-NoSlash s (λ e. h (rw e root_trimmed)))

-- Sanitizing gives the empty text, which the handlers refuse, or a name without slash and
-- backslash that is not "." or "..".
pub sanitize_filename-IsFileName :
    (s : Text) → (sanitize_filename s ≡ []) ⊎ IsFileName (sanitize_filename s)
unfolding sanitize_filename
sanitize_filename-IsFileName s =
    let b = base (replace_all backslash slash s) in
    let t = trim_space b in
    let nb : NoBackslash t =
      trim_space-All (λ c. c ≢ backslash) b (base-NoBackslash _ (replace_all-NoBackslash s)) in
    elim (Bool-cases (t == dot)) [
      | inl e ↦ rw e (inl refl)
      | inr e ↦ elim (Bool-cases (t == dots)) [
        | inl f ↦ rw (e, f) (inl refl)
        | inr f ↦ elim (Bool-cases (t == root_path)) [
          | inl g ↦ rw (e, f, g) (inl refl)
          | inr g ↦ elim (Bool-cases (t == [])) [
            | inl k ↦ rw (e, f, g) (inl ((eq_iff t []).0 k))
            | inr k ↦
                rw (e, f, g)
                  (inr (
                    (
                      ground (arith, eq_iff t []),
                      ground (arith, eq_iff t dot),
                      ground (arith, eq_iff t dots),
                      base_trimmed_NoSlash (replace_all backslash slash s)
                          (ground (arith, eq_iff t root_path)),
                    ),
                    nb,
                  ))
          ]
        ]
      ]
    ]
