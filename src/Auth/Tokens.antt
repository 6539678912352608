-- ===== src/Auth/Tokens.antt =====
-- issueToken and parseToken of internal/auth/auth.go, and what the code uses of the packages jwt
-- and bcrypt, whose functions are a parameter.
use my_personal_cloud.Prelude.{
  ℕ, ◌+◌, ◌==◌, Bool, true, false, not, ◌&&◌, ◌||◌, List, [], ◌∷◌, Option, none, some, Text, codes,
  nat_eq, leb, if◌then◌else◌,
}
use my_personal_cloud.GoPath.{is_space}
use my_personal_cloud.Decimal.{decimal, magnitude}

-- A value of `jwt.MapClaims`.
pub data Value : Type 0 where
  text : Text → Value
  number : ℕ → Value
  other : Value

abbrev pub Claims : Type 0
Claims = List (Text × Value)

-- Whether the method of a token is a `SigningMethodHMAC`.
pub data Method : Type 0 where
  hmac : Method
  not_hmac : Method

-- A parsed token; `claims` is none where they are not `jwt.MapClaims`.
pub record Token : Type 0 where
  pub valid : Bool
  pub claims : Option Claims

-- `SignedString` with HS256 of a key and claims; `jwt.Parse` of a token at a time in seconds with a
-- function from the method to the key; `ParseUnverified`; `GenerateFromPassword` with its n-th salt
-- and `CompareHashAndPassword` of bcrypt. None stands for an error.
pub record Library : Type 0 where
  pub sign : Text → Claims → Option Text
  pub parse : Text → ℕ → (Method → Option Text) → Option Token
  pub parse_unverified : Text → Option Token
  pub hash : ℕ → Text → Option Text
  pub compare : Text → Text → Bool

-- The settings of the service. The expiry is in whole seconds and not negative.
pub record Service : Type 0 where
  pub secret : Text
  pub expiry : ℕ

-- A number of an int64: whether it is negative, and its absolute value.
abbrev pub Int64 : Type 0
Int64 = Bool × ℕ

-- `auth.User` as a token names it.
pub record TokenUser : Type 0 where
  pub id : Int64
  pub username : Text

-- `claims[key].(string)`, and "" where there is no such string.
abbrev pub as_text : Value → Text
as_text (text s) = s
as_text (number n) = []
as_text other = []

unfoldable pub claim_text : Text → Claims → Text
claim_text key [] = []
claim_text key ((k, v) ∷ claims) = if k == key then as_text v else claim_text key claims

-- `fmt.Sprintf("%d", id)`
unfoldable pub format_int : Int64 → Text
format_int (false, n) = decimal n
format_int (true, n) = b'-' ∷ decimal n

abbrev pub is_digit : ℕ → Bool
is_digit c = leb 48 c && leb c 57

unfoldable pub leading_digits : Text → Text
leading_digits [] = []
leading_digits (c ∷ s) = if is_digit c then c ∷ leading_digits s else []

-- Zero has no sign.
abbrev pub signed : Option (Bool × ℕ) → Option Int64
signed none = none
signed (some (negative, n)) = some (negative && not (nat_eq n 0), n)

abbrev pub scan_sign : Text → Option Int64
scan_sign [] = none
scan_sign (c ∷ s) =
    if nat_eq c b'-'
    then signed (magnitude true (leading_digits s))
    else if nat_eq c b'+'
    then signed (magnitude false (leading_digits s))
    else signed (magnitude false (leading_digits (c ∷ s)))

-- `fmt.Sscanf(s, "%d", &id)`: spaces are skipped, a newline among them is an error, and what
-- follows the digits is not looked at.
unfoldable pub scan_int : Text → Option Int64
scan_int [] = none
scan_int (c ∷ s) =
    let rest = scan_int s in
    if nat_eq c 10 then none else if is_space c then rest else scan_sign (c ∷ s)

-- The claims of a token: its subject, its user, and when it is issued and expires.
abbrev pub claims_of : Text → Text → ℕ → ℕ → Claims
claims_of sub usr iat exp =
    (codes "sub", text sub)
    ∷ (codes "usr", text usr)
    ∷ (codes "iat", number iat)
    ∷ (codes "exp", number exp)
    ∷ []

abbrev pub with_id : Text → Option Int64 → Option TokenUser
with_id usr none = none
with_id usr (some id) = some (record { id = id; username = usr })

-- The user of the claims; "" stands for a claim that is missing.
unfoldable pub user_of : Option Claims → Option TokenUser
user_of none = none
user_of (some claims) =
    let sub = claim_text (codes "sub") claims in
    let usr = claim_text (codes "usr") claims in
    if sub == [] || usr == [] then none else with_id usr (scan_int sub)

abbrev pub checked_token : Option Token → Option TokenUser
checked_token none = none
checked_token (some token) = if token.valid then user_of token.claims else none

-- The function that `parseToken` gives to `jwt.Parse`.
abbrev pub key_of : Service → Method → Option Text
key_of service hmac = some service.secret
key_of service not_hmac = none

module _ (lib : Library) (service : Service) where
  -- `issueToken` at a time in seconds.
  unfoldable pub issue_token : Int64 → Text → ℕ → Option Text
  issue_token id username now =
      lib.sign service.secret (claims_of (format_int id) username now (now + service.expiry))

  -- `parseToken` at a time in seconds.
  unfoldable pub parse_token : Text → ℕ → Option TokenUser
  parse_token raw now = checked_token (lib.parse raw now (key_of service))
