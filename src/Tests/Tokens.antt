-- ===== src/Tests/Tokens.antt =====
-- A library of tokens and password hashes for the tests, and runs of the authentication with it.
-- A token is the list of its subject, its user, each behind its length, its expiry and the key.
use my_personal_cloud.Prelude.{
  ℕ, ◌≡◌, refl, ap, ◌∙◌, ◌++◌, ◌==◌, ◌&&◌, Bool, true, false, [], ◌∷◌, Option, none, some, Text,
  codes, arith, length, take, drop, take-append, drop-append, ltb, eq_refl, if◌then◌else◌,
}
use my_personal_cloud.Auth.Tokens.{Library, Token, Claims, Value, hmac, claims_of, claim_text}
use my_personal_cloud.Auth.Sessions.{AcceptsUntilExpiry, RefusesAfterExpiry}
use my_personal_cloud.Auth.Bootstrap.{AcceptsOwnHash}

abbrev as_number : Value → ℕ
as_number (Value.number n) = n
as_number (Value.text s) = 0
as_number Value.other = 0

unfoldable pub claim_number : Text → Claims → ℕ
claim_number key [] = 0
claim_number key ((k, v) ∷ claims) = if k == key then as_number v else claim_number key claims

abbrev framed : Text → Text → ℕ → Text → Text
framed sub usr exp key = length sub ∷ (sub ++ (length usr ∷ (usr ++ exp ∷ key)))

unfoldable pub sign_claims : Text → Claims → Option Text
sign_claims key claims = some (
    framed (claim_text (codes "sub") claims) (claim_text (codes "usr") claims)
      (claim_number (codes "exp") claims) key)

abbrev fits : Text → Option Text → Bool
fits key none = false
fits key (some k) = k == key

abbrev with_expiry : Text → Text → ℕ → Option Text → Text → Option Token
with_expiry sub usr now key [] = none
with_expiry sub usr now key (exp ∷ k) =
    if fits k key && ltb now exp
    then some (record { valid = true; claims = some (claims_of sub usr 0 exp) })
    else none

abbrev with_user : Text → ℕ → Option Text → Text → Option Token
with_user sub now key [] = none
with_user sub now key (n ∷ rest) = with_expiry sub (take n rest) now key (drop n rest)

unfoldable pub parse_frames : Text → ℕ → Option Text → Option Token
parse_frames [] now key = none
parse_frames (n ∷ rest) now key = with_user (take n rest) now key (drop n rest)

abbrev pub library : Library
library = record {
  sign = sign_claims;
  parse = λ raw now key_of. parse_frames raw now (key_of hmac);
  parse_unverified = λ raw. parse_frames raw 0 (some (codes "k"));
  hash = λ n password. some (n ∷ password);
  compare = λ hash password. drop 1 hash == password;
}

parse_frames-framed :
    (sub usr key : Text) (exp now : ℕ) (o : Option Text)
    → parse_frames (framed sub usr exp key) now o ≡ with_expiry sub usr now o (exp ∷ key)
unfolding parse_frames
parse_frames-framed sub usr key exp now o =
    let tail : Text = exp ∷ key in
    let rest : Text = length usr ∷ (usr ++ tail) in
    ap (λ s. with_user s now o (drop (length sub) (sub ++ rest))) (take-append sub rest)
    ∙ ap (with_user sub now o) (drop-append sub rest)
    ∙ ap (λ s. with_expiry sub s now o (drop (length usr) (usr ++ tail))) (take-append usr tail)
    ∙ ap (with_expiry sub usr now o) (drop-append usr tail)

signed_is :
    (key sub usr raw : Text) (iat exp : ℕ)
    → sign_claims key (claims_of sub usr iat exp) ≡ some raw
    → framed sub usr exp key ≡ raw
unfolding sign_claims claim_text claim_number ◌==◌
signed_is key sub usr raw iat exp h = cc h

pub library-AcceptsUntilExpiry : AcceptsUntilExpiry library
unfolding claim_text ◌==◌
library-AcceptsUntilExpiry key sub usr raw iat exp now key_of made given early exact =
    let fresh : ltb now exp ≡ true = ground arith in
    (
      record { valid = true; claims = some (claims_of sub usr 0 exp) },
      claims_of sub usr 0 exp,
      rw (← signed_is key sub usr raw iat exp made, given)
          (parse_frames-framed sub usr key exp now (some key) ∙ rw (eq_refl key, fresh) refl),
      refl,
      refl,
      refl,
      refl,
    )

pub library-RefusesAfterExpiry : RefusesAfterExpiry library
library-RefusesAfterExpiry key sub usr raw iat exp now key_of made late exact =
    rw (← signed_is key sub usr raw iat exp made)
      (parse_frames-framed sub usr key exp now (key_of hmac) ∙ ground arith)

pub library-AcceptsOwnHash : AcceptsOwnHash library
library-AcceptsOwnHash n password hash h =
    let same : n ∷ password ≡ hash = cc h in rw (← same) (eq_refl password)
