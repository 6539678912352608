-- ===== src/Sql/Like.antt =====
-- LIKE against a literal prefix followed by "/%", and what the wildcards of a name do to it.
use my_personal_cloud.Prelude.{ℕ, ◌≡◌, ◌≢◌, refl, ◌++◌, true, [], ◌∷◌, Text, arith, All, map}
use my_personal_cloud.Sql.{lower, percent, underscore, some_suffix, like}

-- `prefix + "/%"`, the pattern of the statements on the contents of a folder.
abbrev pub below : Text → Text
below prefix = prefix ++ 47 ∷ percent ∷ []

abbrev pub NoWildcard : Text → Type 0
NoWildcard = All (λ c. (c ≢ percent) × (c ≢ underscore))

-- Equal but for the case of ASCII letters.
abbrev pub SameFolded : Text → Text → Type 0
SameFolded s t = map lower s ≡ map lower t

any_text : (s : Text) → some_suffix (like []) s ≡ true
unfolding some_suffix like
any_text [] = refl
any_text (c ∷ s) = ground (arith, any_text s)

-- A text is below a prefix without wildcards exactly when it begins with the prefix, but for the
-- case of letters, and a slash.
pub like-below_sound :
    (prefix s : Text)
    → NoWildcard prefix
    → like (below prefix) s ≡ true
    → (start rest : Text) × (s ≡ start ++ 47 ∷ rest) × SameFolded start prefix
unfolding like lower
like-below_sound [] [] h e = cc
like-below_sound [] (c ∷ s) h e = ([], s, ground arith, refl)
like-below_sound (x ∷ prefix) [] h e = absurd (ground arith)
like-below_sound (x ∷ prefix) (c ∷ s) h e =
    let (start, rest, q, f) = like-below_sound prefix s h.1 (ground arith) in
    (c ∷ start, rest, rw q, ground arith)

pub like-below_complete :
    (start prefix rest : Text)
    → NoWildcard prefix
    → SameFolded start prefix
    → like (below prefix) (start ++ 47 ∷ rest) ≡ true
unfolding like
like-below_complete [] [] rest h e = ground (arith, any_text rest)
like-below_complete [] (x ∷ prefix) rest h e = absurd (cc e)
like-below_complete (c ∷ start) [] rest h e = absurd (cc e)
like-below_complete (c ∷ start) (x ∷ prefix) rest h e =
    ground (arith, like-below_complete start prefix rest h.1)

-- An underscore in the prefix matches any character in its place.
pub like-below-underscore :
    (a b rest : Text) (c : ℕ)
    → NoWildcard a
    → NoWildcard b
    → like (below (a ++ underscore ∷ b)) ((a ++ c ∷ b) ++ 47 ∷ rest) ≡ true
unfolding like
like-below-underscore [] b rest c h k = like-below_complete b b rest k refl
like-below-underscore (x ∷ a) b rest c h k = ground (arith, like-below-underscore a b rest c h.1 k)
