-- ===== src/Decimal/Digits.antt =====
-- The digits of a decimal text, and the number that they give back.
use my_personal_cloud.Prelude.{
  ℕ, zero, suc, ◌+◌, ◌*◌, ◌≤◌, ◌<◌, ◌%◌, ◌/◌, ◌≡◌, ◌≢◌, [], ◌∷◌, Text, some, arith, All, Bool-cases,
  inl, inr, ltb,
}
use my_personal_cloud.Decimal.{decimal, digits_from, digits_value}

abbrev pub IsDigit : ℕ → Type 0
IsDigit c = (48 ≤ c) × (c ≤ 57)

digits_from-IsDigit :
    (fuel n : ℕ) (acc : Text) → All IsDigit acc → All IsDigit (digits_from fuel n acc)
unfolding digits_from
digits_from-IsDigit zero n acc h = h
digits_from-IsDigit (suc fuel) n acc h =
    ground (arith, digits_from-IsDigit fuel (n / 10) ((48 + n % 10) ∷ acc))

digits_from-ne-nil : (fuel n c : ℕ) (acc : Text) → digits_from fuel n (c ∷ acc) ≢ []
unfolding digits_from
digits_from-ne-nil zero n c acc = cc
digits_from-ne-nil (suc fuel) n c acc =
    ground (arith, digits_from-ne-nil fuel (n / 10) (48 + n % 10) (c ∷ acc))

pub decimal-ne-nil : (n : ℕ) → decimal n ≢ []
unfolding decimal digits_from
decimal-ne-nil n = ground (arith, digits_from-ne-nil 19 (n / 10) (48 + n % 10) [])

pub decimal-IsDigit : (n : ℕ) → All IsDigit (decimal n)
unfolding decimal
decimal-IsDigit n = digits_from-IsDigit 20 n [] tt

-- The numbers below are those with that many digits.
abbrev bound : ℕ → ℕ
bound zero = 1
bound (suc fuel) = 10 * bound fuel

digits_value-digits_from :
    (fuel n : ℕ) (s : Text)
    → n < bound (suc fuel)
    → digits_value 0 (digits_from (suc fuel) n s) ≡ digits_value n s
unfolding digits_value digits_from
digits_value-digits_from zero n s h = ground arith
digits_value-digits_from (suc fuel) n s h = elim (Bool-cases (ltb n 10)) [
  | inl e ↦ rw e (ground arith)
  | inr e ↦
      rw (e, digits_value-digits_from fuel (n / 10) ((48 + n % 10) ∷ s) (omega arith))
        (ground arith)
]

pub digits_value-decimal : (n : ℕ) → n < 100000000000000000000 → digits_value 0 (decimal n) ≡ some n
unfolding decimal digits_value
digits_value-decimal n h = digits_value-digits_from 19 n [] h
