-- ===== src/Decimal.antt =====
-- What the program uses of `strconv`: decimal texts of 64-bit integers.
pub mod Digits
use my_personal_cloud.Prelude.{
  ℕ, zero, suc, ◌+◌, ◌-◌, ◌*◌, ◌/◌, ◌%◌, ◌^◌, Bool, true, false, ◌&&◌, [], ◌∷◌, Option, none, some,
  Text, nat_eq, ltb, leb, if◌then◌else◌,
}

-- The digits of a number below 10 ^ fuel, before those in `acc`.
unfoldable pub digits_from : ℕ → ℕ → Text → Text
digits_from zero n acc = acc
digits_from (suc fuel) n acc =
    let rest = digits_from fuel (n / 10) ((48 + n % 10) ∷ acc) in
    if ltb n 10 then (48 + n) ∷ acc else rest

-- `strconv.FormatInt(n, 10)` of a number that is not negative; 20 digits are enough for 64 bits.
unfoldable pub decimal : ℕ → Text
decimal n = digits_from 20 n []

unfoldable pub digits_value : ℕ → Text → Option ℕ
digits_value acc [] = some acc
digits_value acc (c ∷ s) =
    if leb 48 c && leb c 57 then digits_value (acc * 10 + (c - 48)) s else none

abbrev pub in_range : Bool → Option ℕ → Option (Bool × ℕ)
in_range negative none = none
in_range negative (some n) =
    if ltb n (2 ^ 63)
    then some (negative, n)
    else if negative && nat_eq n (2 ^ 63)
    then some (negative, n)
    else none

abbrev pub magnitude : Bool → Text → Option (Bool × ℕ)
magnitude negative [] = none
magnitude negative (c ∷ s) = in_range negative (digits_value 0 (c ∷ s))

-- `strconv.Atoi`: the sign and the absolute value, or `none` for an error.
unfoldable pub atoi : Text → Option (Bool × ℕ)
atoi [] = none
atoi (c ∷ s) =
    if nat_eq c 45
    then magnitude true s
    else if nat_eq c 43
    then magnitude false s
    else magnitude false (c ∷ s)
