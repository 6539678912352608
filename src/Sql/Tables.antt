-- ===== src/Sql/Tables.antt =====
-- What an update or a deletion does to the rows that a test keeps, and what a page holds.
use my_personal_cloud.Prelude.{
  ℕ, zero, suc, ◌≤◌, ◌≡◌, refl, Bool, true, false, List, [], ◌∷◌, arith, filter, length, take, drop,
  All, Bool-cases, inl, inr,
}
use my_personal_cloud.Sql.{update, delete, insert_ordered, order_by, page}

module _ {ℓ} {A : Type ℓ} where
  -- An update of rows outside `q` that stay outside `q` leaves the rows in `q` alone.
  pub filter-update :
      (q p : A → Bool) (f : A → A) (xs : List A)
      → ((x : A) → p x ≡ true → (q x ≡ false) × (q (f x) ≡ false))
      → filter q (update p f xs) ≡ filter q xs
  filter-update q p f [] h = refl
  filter-update q p f (x ∷ xs) h = elim (Bool-cases (p x)) [
    | inl e ↦ rw (e, (h x e).0, (h x e).1) (filter-update q p f xs h)
    | inr e ↦ rw e (ground (arith, filter-update q p f xs h))
  ]

  pub filter-delete :
      (q p : A → Bool) (xs : List A)
      → ((x : A) → p x ≡ true → q x ≡ false)
      → filter q (delete p xs) ≡ filter q xs
  filter-delete q p [] h = refl
  filter-delete q p (x ∷ xs) h = elim (Bool-cases (p x)) [
    | inl e ↦ rw (e, h x e) (filter-delete q p xs h)
    | inr e ↦ rw e (ground (arith, filter-delete q p xs h))
  ]

  pub length-page : (limit offset : ℕ) (xs : List A) → length (page limit offset xs) ≤ limit
  length-page limit offset xs = length-take (drop offset xs) limit
    where
      length-take : (ys : List A) (n : ℕ) → length (take n ys) ≤ n
      length-take ys zero = omega arith
      length-take [] (suc n) = omega arith
      length-take (y ∷ ys) (suc n) = omega (arith, length-take ys n)

module _ {ℓ κ} {A : Type ℓ} (P : A → Type κ) where
  pub All-update :
      (p : A → Bool) (f : A → A) (xs : List A)
      → ((x : A) → P x → p x ≡ true → P (f x))
      → All P xs
      → All P (update p f xs)
  All-update p f [] h k = tt
  All-update p f (x ∷ xs) h (k, ks) = elim (Bool-cases (p x)) [
    | inl e ↦ rw e (h x k e, All-update p f xs h ks)
    | inr e ↦ rw e (k, All-update p f xs h ks)
  ]

  pub All-take : (n : ℕ) (xs : List A) → All P xs → All P (take n xs)
  All-take zero xs h = tt
  All-take (suc n) [] h = tt
  All-take (suc n) (x ∷ xs) h = (h.0, All-take n xs h.1)

  pub All-drop : (n : ℕ) (xs : List A) → All P xs → All P (drop n xs)
  All-drop zero xs h = h
  All-drop (suc n) [] h = tt
  All-drop (suc n) (x ∷ xs) h = All-drop n xs h.1

  insert_ordered-All :
      (before : A → A → Bool) (x : A) (xs : List A)
      → P x
      → All P xs
      → All P (insert_ordered before x xs)
  unfolding insert_ordered
  insert_ordered-All before x [] p h = (p, tt)
  insert_ordered-All before x (y ∷ ys) p h = ground (arith, insert_ordered-All before x ys p h.1)

  pub order_by-All : (before : A → A → Bool) (xs : List A) → All P xs → All P (order_by before xs)
  unfolding order_by
  order_by-All before [] h = tt
  order_by-All before (x ∷ xs) h =
      insert_ordered-All before x (order_by before xs) h.0 (order_by-All before xs h.1)
