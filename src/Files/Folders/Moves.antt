-- ===== src/Files/Folders/Moves.antt =====
-- Where the cascade of a folder's new path puts what is in the folder.
use my_personal_cloud.Prelude.{
  ℕ, zero, suc, ◌+◌, ◌-◌, ◌≤◌, ◌<◌, ◌≡◌, refl, sym, ap, ◌∙◌, ◌++◌, ◌==◌, eq_refl, eq_iff, true, [],
  ◌∷◌, Text, arith, All, All-append, length, length-append, drop, byte_length, inl, inr, ◌⊎◌,
  Bool-cases,
}
use mathlib.Core.List.{append-nil}
use my_personal_cloud.GoPath.{slash}
use my_personal_cloud.Sql.{underscore, like}
use my_personal_cloud.Sql.Like.{
  below, NoWildcard, SameFolded, like-below_sound, like-below_complete, like-below-underscore,
}
use my_personal_cloud.Files.Api.{is_inside, moved_path}

abbrev pub IsAscii : Text → Type 0
IsAscii = All (λ c. c < 128)

drop-append : (xs ys : Text) (k j : ℕ) → k ≡ length xs + j → drop k (xs ++ ys) ≡ drop j ys
drop-append [] ys k j e = let same : k ≡ j = omega arith in rw same refl
drop-append (x ∷ xs) ys zero j e = absurd (omega arith)
drop-append (x ∷ xs) ys (suc k) j e = drop-append xs ys k j (omega arith)

length-le-byte_length : (s : Text) → length s ≤ byte_length s
unfolding byte_length
length-le-byte_length [] = omega arith
length-le-byte_length (c ∷ s) = ground (arith, length-le-byte_length s)

byte_length_of_IsAscii : (s : Text) → IsAscii s → byte_length s ≡ length s
unfolding byte_length
byte_length_of_IsAscii [] h = refl
byte_length_of_IsAscii (c ∷ s) h = ground (arith, byte_length_of_IsAscii s h.1)

length_of_SameFolded : (s t : Text) → SameFolded s t → length s ≡ length t
length_of_SameFolded [] [] e = refl
length_of_SameFolded [] (d ∷ t) e = absurd (cc e)
length_of_SameFolded (c ∷ s) [] e = absurd (cc e)
length_of_SameFolded (c ∷ s) (d ∷ t) e = ap suc (length_of_SameFolded s t (cc e))

-- Go counts the bytes of the old path and SUBSTR counts characters: of a path that begins with
-- the old one, as many further characters are lost as the old path has bytes more than
-- characters.
pub moved_path-append :
    (old new rest : Text)
    → moved_path old new (old ++ rest) ≡ new ++ drop (byte_length old - length old) rest
unfolding moved_path
moved_path-append old new rest =
    ap (λ s. new ++ s)
      (drop-append old rest (byte_length old + 1 - 1) (byte_length old - length old)
        (omega (arith, length-le-byte_length old)))

moved_path_behind :
    (old new start rest : Text)
    → IsAscii old
    → length start ≡ length old
    → moved_path old new (start ++ rest) ≡ new ++ rest
unfolding moved_path
moved_path_behind old new start rest ascii same =
    ap (λ s. new ++ s)
      (drop-append start rest (byte_length old + 1 - 1) 0
        (omega (arith, byte_length_of_IsAscii old ascii, same)))

moved_path_start :
    (old new start rest : Text)
    → IsAscii old
    → SameFolded start old
    → moved_path old new (start ++ rest) ≡ new ++ rest
moved_path_start old new start rest ascii folded =
    moved_path_behind old new start rest ascii (length_of_SameFolded start old folded)

moved_path_whole : (old new : Text) → IsAscii old → moved_path old new old ≡ new
moved_path_whole old new ascii =
    ap (moved_path old new) (sym (append-nil old))
    ∙ moved_path_start old new old [] ascii refl
    ∙ append-nil new

-- For an old full path of ASCII characters without "%" and "_": the cascade finds what lies in the
-- folder itself and what lies anywhere below it, and puts the new full path in place of the old
-- one, so the rest of each path is as before.
pub folder_contents_move :
    (old new rest : Text)
    → NoWildcard old
    → IsAscii old
    → (is_inside old old ≡ true)
      × (moved_path old new old ≡ new)
      × (is_inside old (old ++ slash ∷ rest) ≡ true)
      × (moved_path old new (old ++ slash ∷ rest) ≡ new ++ slash ∷ rest)
unfolding is_inside
folder_contents_move old new rest plain ascii = (
  ground (arith, eq_refl old),
  moved_path_whole old new ascii,
  ground (arith, like-below_complete old old rest plain refl),
  moved_path_start old new old (slash ∷ rest) ascii refl,
)

-- For an old full path of ASCII characters without "%" and "_": whatever the cascade finds lies in
-- a folder whose full path is the old one but for the case of letters, or below it, and the cascade
-- puts the new full path in place of that one.
pub only_folder_contents_move :
    (old new p : Text)
    → NoWildcard old
    → IsAscii old
    → is_inside old p ≡ true
    → (start rest : Text) × (p ≡ start ++ rest)
      × SameFolded start old
      × ((rest ≡ []) ⊎ ((tail : Text) × (rest ≡ slash ∷ tail)))
      × (moved_path old new p ≡ new ++ rest)
unfolding is_inside
only_folder_contents_move old new p plain ascii h = elim (Bool-cases (p == old)) [
  | inl e ↦
      let same : p ≡ old = (eq_iff p old).0 e in
      (
        old,
        [],
        same ∙ sym (append-nil old),
        refl,
        inl refl,
        ap (moved_path old new) same ∙ moved_path_whole old new ascii ∙ sym (append-nil new),
      )
  | inr e ↦
      let (start, tail, q, folded) = like-below_sound old p plain (ground arith) in
      (
        start,
        slash ∷ tail,
        q,
        folded,
        inr (tail, refl),
        ap (moved_path old new) q ∙ moved_path_start old new start (slash ∷ tail) ascii folded,
      )
]

inside_of_like : (full p : Text) → like (below full) p ≡ true → is_inside full p ≡ true
unfolding is_inside
inside_of_like full p h = ground arith

length_with : (a b : Text) (c : ℕ) → length (a ++ c ∷ b) ≡ suc (length a + length b)
length_with a b c = length-append a (c ∷ b) ∙ omega arith

-- With an underscore in the old full path, and otherwise ASCII characters and no wildcard, the
-- cascade also finds what lies below another folder, one whose full path has any character in
-- the underscore's place, and moves it to the new full path.
pub wildcard_moves_others :
    (a b new rest : Text) (c : ℕ)
    → NoWildcard a
    → NoWildcard b
    → IsAscii a
    → IsAscii b
    → (is_inside (a ++ underscore ∷ b) ((a ++ c ∷ b) ++ slash ∷ rest) ≡ true)
      × (moved_path (a ++ underscore ∷ b) new ((a ++ c ∷ b) ++ slash ∷ rest) ≡ new ++ slash ∷ rest)
wildcard_moves_others a b new rest c h k ascii_a ascii_b = (
  inside_of_like (a ++ underscore ∷ b) ((a ++ c ∷ b) ++ slash ∷ rest)
      (like-below-underscore a b rest c h k),
  moved_path_behind (a ++ underscore ∷ b) new (a ++ c ∷ b) (slash ∷ rest)
      (All-append (λ d. d < 128) a (underscore ∷ b) ascii_a (omega arith, ascii_b))
      (length_with a b c ∙ sym (length_with a b underscore)),
)
