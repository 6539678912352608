-- ===== src/Auth/Numbers.antt =====
-- The subject of a token of internal/auth/auth.go: written with "%d" and read again.
use my_personal_cloud.Prelude.{
  ℕ, ◌<◌, ◌^◌, ◌≡◌, ◌≢◌, refl, Bool, true, false, [], ◌∷◌, Text, none, some, Option, zero, suc, ◌≤◌,
  arith, All, nat_eq, ltb, Bool-cases, inl, inr,
}
use my_personal_cloud.GoPath.{is_space}
use my_personal_cloud.Decimal.{decimal, digits_value, magnitude, in_range}
use my_personal_cloud.Decimal.Digits.{
  IsDigit, decimal-ne-nil, decimal-IsDigit, digits_value-decimal,
}
use my_personal_cloud.Auth.Tokens.{format_int, scan_int, leading_digits, scan_sign, signed, Int64}

leading_digits_of_digits : (s : Text) → All IsDigit s → leading_digits s ≡ s
unfolding leading_digits
leading_digits_of_digits [] h = refl
leading_digits_of_digits (c ∷ s) h = ground (arith, leading_digits_of_digits s h.1)

is_space_of_digit : (c : ℕ) → IsDigit c → is_space c ≡ false
unfolding is_space
is_space_of_digit c h = ground arith

scan_int_of_digits : (s : Text) → s ≢ [] → All IsDigit s → scan_int s ≡ signed (magnitude false s)
unfolding scan_int
scan_int_of_digits [] e h = absurd (e refl)
scan_int_of_digits (c ∷ s) e h =
    let newline : nat_eq c 10 ≡ false = ground arith in
    let minus : nat_eq c b'-' ≡ false = ground arith in
    let plus : nat_eq c b'+' ≡ false = ground arith in
    rw (newline, is_space_of_digit c h.0, minus, plus, leading_digits_of_digits (c ∷ s) h) refl

magnitude_of_decimal :
    (s : Text) (n : ℕ)
    → s ≢ []
    → digits_value 0 s ≡ some n
    → n < 2 ^ 63
    → signed (magnitude false s) ≡ some (false, n)
magnitude_of_decimal [] n e h k = absurd (e refl)
magnitude_of_decimal (c ∷ s) n e h k = rw h (ground arith)

scan_positive : (n : ℕ) → n < 2 ^ 63 → scan_int (decimal n) ≡ some (false, n)
scan_positive n h =
    rw (scan_int_of_digits (decimal n) (decimal-ne-nil n) (decimal-IsDigit n)) (
      magnitude_of_decimal (decimal n) n (decimal-ne-nil n) (digits_value-decimal n (omega arith))
        h)

-- The values of an int64, of which zero has no sign.
abbrev pub IsInt64 : Int64 → Type 0
IsInt64 (false, n) = n < 2 ^ 63
IsInt64 (true, n) = (1 ≤ n) × (n ≤ 2 ^ 63)

some-IsInt64 : {j i : Int64} → ◌≡◌ {A = Option Int64} (some j) (some i) → IsInt64 j → IsInt64 i
some-IsInt64 {j} {i} e h = let same : j ≡ i = cc e in rw (← same) h

in_range-IsInt64 :
    (negative : Bool) (o : Option ℕ) {i : Int64} → signed (in_range negative o) ≡ some i → IsInt64 i
in_range-IsInt64 negative none h = absurd (cc h)
in_range-IsInt64 false (some n) h = elim (Bool-cases (ltb n (2 ^ 63))) [
  | inl e ↦ some-IsInt64 (rw e at h) (ground arith)
  | inr e ↦ absurd (cc (rw e at h))
]
in_range-IsInt64 true (some zero) h = some-IsInt64 h (omega arith)
in_range-IsInt64 true (some (suc n)) h = elim (Bool-cases (ltb (suc n) (2 ^ 63))) [
  | inl e ↦ some-IsInt64 (rw e at h) (ground arith)
  | inr e ↦ elim (Bool-cases (nat_eq (suc n) (2 ^ 63))) [
    | inl f ↦ some-IsInt64 (rw (e, f) at h) (ground arith)
    | inr f ↦ absurd (cc (rw (e, f) at h))
  ]
]

magnitude-IsInt64 :
    (negative : Bool) (s : Text) {i : Int64} → signed (magnitude negative s) ≡ some i → IsInt64 i
magnitude-IsInt64 negative [] h = absurd (cc h)
magnitude-IsInt64 negative (c ∷ s) h = in_range-IsInt64 negative (digits_value 0 (c ∷ s)) h

scan_sign-IsInt64 : (s : Text) {i : Int64} → scan_sign s ≡ some i → IsInt64 i
scan_sign-IsInt64 [] h = absurd (cc h)
scan_sign-IsInt64 (c ∷ s) h = elim (Bool-cases (nat_eq c b'-')) [
  | inl e ↦ magnitude-IsInt64 true (leading_digits s) (rw e at h)
  | inr e ↦ elim (Bool-cases (nat_eq c b'+')) [
    | inl f ↦ magnitude-IsInt64 false (leading_digits s) (rw (e, f) at h)
    | inr f ↦ magnitude-IsInt64 false (leading_digits (c ∷ s)) (rw (e, f) at h)
  ]
]

pub scan_int-IsInt64 : (s : Text) {i : Int64} → scan_int s ≡ some i → IsInt64 i
unfolding scan_int
scan_int-IsInt64 [] h = absurd (cc h)
scan_int-IsInt64 (c ∷ s) h = elim (Bool-cases (nat_eq c 10)) [
  | inl e ↦ absurd (cc (rw e at h))
  | inr e ↦ elim (Bool-cases (is_space c)) [
    | inl f ↦ scan_int-IsInt64 s (rw (e, f) at h)
    | inr f ↦ scan_sign-IsInt64 (c ∷ s) (rw (e, f) at h)
  ]
]

magnitude_of_negative :
    (s : Text) (n : ℕ)
    → s ≢ []
    → digits_value 0 s ≡ some n
    → 1 ≤ n
    → n ≤ 2 ^ 63
    → signed (magnitude true s) ≡ some (true, n)
magnitude_of_negative [] n e h j k = absurd (e refl)
magnitude_of_negative (c ∷ s) n e h j k = rw h (ground arith)

scan_negative : (n : ℕ) → 1 ≤ n → n ≤ 2 ^ 63 → scan_int (b'-' ∷ decimal n) ≡ some (true, n)
unfolding scan_int is_space
scan_negative n j k = rw (leading_digits_of_digits (decimal n) (decimal-IsDigit n)) (
    magnitude_of_negative (decimal n) n (decimal-ne-nil n) (digits_value-decimal n (omega arith)) j
      k)

-- What "%d" writes of an int64, Sscanf reads back.
pub scan_int-format_int : (i : Int64) → IsInt64 i → scan_int (format_int i) ≡ some i
unfolding format_int
scan_int-format_int (false, n) h = scan_positive n h
scan_int-format_int (true, n) h = scan_negative n h.0 h.1

pub format_int-ne-nil : (i : Int64) → format_int i ≢ []
unfolding format_int
format_int-ne-nil (false, n) = decimal-ne-nil n
format_int-ne-nil (true, n) = cc
