-- ===== src/Sql.antt =====
-- The parts of SQLite that the statements of the services use, over tables as lists of rows:
-- UPDATE, DELETE and COUNT with a WHERE clause, ORDER BY, LIMIT and OFFSET, LIKE, SUBSTR and the
-- NOCASE collation. Rows that compare equal keep their order in the table, which SQL leaves open.
pub mod Like
pub mod Tables
use my_personal_cloud.Prelude.{
  ℕ, suc, ◌+◌, ◌-◌, ◌==◌, Bool, true, false, not, ◌&&◌, ◌||◌, List, [], ◌∷◌, Text, if◌then◌else◌,
  nat_eq, ltb, leb, filter, length, take, drop,
}

-- `lower` of SQLite, also the folding of LIKE and NOCASE: ASCII letters only.
unfoldable pub lower : ℕ → ℕ
lower c = if leb 65 c && leb c 90 then c + 32 else c

abbrev pub percent : ℕ
percent = 37

abbrev pub underscore : ℕ
underscore = 95

-- Some suffix of the text passes the test.
unfoldable pub some_suffix : (Text → Bool) → Text → Bool
some_suffix p [] = p []
some_suffix p (c ∷ s) = p (c ∷ s) || some_suffix p s

abbrev pub one_char : ℕ → (Text → Bool) → Text → Bool
one_char x p [] = false
one_char x p (c ∷ s) = (nat_eq x underscore || nat_eq (lower x) (lower c)) && p s

abbrev pub ends : Text → Bool
ends [] = true
ends (c ∷ s) = false

-- `text LIKE pattern`, with the pattern first: `%` stands for any text and `_` for one character.
unfoldable pub like : Text → Text → Bool
like [] s = ends s
like (x ∷ pattern) s =
    let rest = like pattern in if nat_eq x percent then some_suffix rest s else one_char x rest s

-- `SUBSTR(s, start)` for a start of at least 1; it counts characters.
abbrev pub substr : Text → ℕ → Text
substr s start = drop (start - 1) s

-- `a < b` under the collation NOCASE.
unfoldable pub nocase_before : Text → Text → Bool
nocase_before [] [] = false
nocase_before [] (d ∷ t) = true
nocase_before (c ∷ s) [] = false
nocase_before (c ∷ s) (d ∷ t) =
    ltb (lower c) (lower d) || (nat_eq (lower c) (lower d) && nocase_before s t)

module _ {ℓ} {A : Type ℓ} where
  -- `UPDATE … SET … WHERE p`
  abbrev pub update : (A → Bool) → (A → A) → List A → List A
  update p f [] = []
  update p f (x ∷ xs) = (if p x then f x else x) ∷ update p f xs

  -- `DELETE FROM … WHERE p`
  abbrev pub delete : (A → Bool) → List A → List A
  delete p = filter (λ x. not (p x))

  -- `SELECT COUNT(*) … WHERE p`
  abbrev pub count : (A → Bool) → List A → ℕ
  count p xs = length (filter p xs)

  -- A row is put behind the rows that it does not come before.
  unfoldable pub insert_ordered : (A → A → Bool) → A → List A → List A
  insert_ordered before x [] = x ∷ []
  insert_ordered before x (y ∷ ys) =
      if before y x then y ∷ insert_ordered before x ys else x ∷ y ∷ ys

  -- `ORDER BY`
  unfoldable pub order_by : (A → A → Bool) → List A → List A
  order_by before [] = []
  order_by before (x ∷ xs) = insert_ordered before x (order_by before xs)

  -- `LIMIT limit OFFSET offset`
  abbrev pub page : ℕ → ℕ → List A → List A
  page limit offset xs = take limit (drop offset xs)
