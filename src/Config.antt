-- ===== src/Config.antt =====
-- Load of internal/config/config.go. An int64 is its residue modulo 2 ^ 64, and products wrap
-- around. The environment is a function from the name of a variable to its value, "" where it is
-- not set.
use my_personal_cloud.Prelude.{
  ℕ, ◌+◌, ◌-◌, ◌*◌, ◌^◌, ◌%◌, ◌/◌, ◌≤◌, ◌≡◌, refl, ◌==◌, Bool, true, false, ◌&&◌, List, [], ◌∷◌,
  Option, none, some, Text, codes, ltb, arith, if◌then◌else◌,
}
use my_personal_cloud.GoPath.{join_path}
use my_personal_cloud.Decimal.{atoi}

pub record Config : Type 0 where
  pub addr : Text
  pub storage_root : Text
  pub database_path : Text
  pub jwt_secret : Text
  pub jwt_expiry : ℕ
  pub max_upload_bytes : ℕ
  pub allow_origin : Text

abbrev pub word : ℕ
word = 2 ^ 64

-- The residue of a number with a sign.
abbrev pub residue : Bool × ℕ → ℕ
residue (false, n) = n % word
residue (true, n) = (word - n % word) % word

-- `time.Hour`
abbrev pub hour : ℕ
hour = 3600 * 10 ^ 9

abbrev pub mebibyte : ℕ
mebibyte = 1024 * 1024

-- `env`
abbrev pub env_or : (Text → Text) → Text → Text → Text
env_or getenv key default = if getenv key == [] then default else getenv key

-- A number from a variable times a unit; the default where it is not set, none for an error.
abbrev pub scaled : ℕ → Option (Bool × ℕ) → Option ℕ
scaled unit none = none
scaled unit (some n) = some (residue n * unit % word)

unfoldable pub number_or : (Text → Text) → Text → ℕ → ℕ → Option ℕ
number_or getenv key unit default =
    if getenv key == [] then some default else scaled unit (atoi (getenv key))

abbrev pub hex_digit : ℕ → ℕ
hex_digit n = if ltb n 10 then 48 + n else 87 + n

-- `hex.EncodeToString`
unfoldable pub hex : List ℕ → Text
hex [] = []
hex (b ∷ bytes) = hex_digit (b / 16) ∷ hex_digit (b % 16) ∷ hex bytes

-- The secret of the environment, or that of 32 random bytes, which may fail to come.
abbrev pub random_secret : Option (List ℕ) → Option Text
random_secret none = none
random_secret (some bytes) = some (hex bytes)

abbrev pub secret_or : (Text → Text) → Option (List ℕ) → Option Text
secret_or getenv random =
    if getenv (codes "CLOUD_JWT_SECRET") == []
    then random_secret random
    else some (getenv (codes "CLOUD_JWT_SECRET"))

abbrev pub local_data : Text → Text
local_data name = join_path (join_path (codes ".") (codes "data")) name

abbrev pub assembled :
    (Text → Text) → Bool → Bool → Option ℕ → Option ℕ → Option Text → Option Config
assembled getenv root_made db_made none bytes secret = none
assembled getenv root_made db_made (some expiry) none secret = none
assembled getenv root_made db_made (some expiry) (some bytes) none = none
assembled getenv root_made db_made (some expiry) (some bytes) (some secret) =
    if root_made && db_made
    then some (record {
      addr = env_or getenv (codes "CLOUD_ADDR") (codes ":8080");
      storage_root = env_or getenv (codes "CLOUD_STORAGE_ROOT") (local_data (codes "storage"));
      database_path = env_or getenv (codes "CLOUD_DB_PATH") (local_data (codes "cloud.db"));
      jwt_secret = secret;
      jwt_expiry = expiry;
      max_upload_bytes = bytes;
      allow_origin = env_or getenv (codes "CLOUD_CORS_ORIGIN") (codes "*");
    })
    else none

-- `Load`: none for an error. The random bytes, and whether the two directories can be made, come
-- from outside.
unfoldable pub load : (Text → Text) → Option (List ℕ) → Bool → Bool → Option Config
load getenv random root_made db_made =
    assembled getenv root_made db_made
      (number_or getenv (codes "CLOUD_JWT_EXPIRY_HOURS") hour (24 * hour))
      (number_or getenv (codes "CLOUD_MAX_UPLOAD_MB") mebibyte (500 * mebibyte))
      (secret_or getenv random)

-- Up to 2562047 hours the expiry does not wrap around.
pub hours_fit :
    (getenv : Text → Text) (key : Text) (n default : ℕ)
    → (getenv key == []) ≡ false
    → atoi (getenv key) ≡ some (false, n)
    → n ≤ 2562047
    → number_or getenv key hour default ≡ some (n * hour)
unfolding number_or
hours_fit getenv key n default set h small =
    let exact : n % word * hour % word ≡ n * hour = omega arith in rw (set, h, exact) refl

-- One hour more is negative as an int64.
hours_wrap : scaled hour (some (false, 2562048)) ≡ some (2562048 * hour)
hours_wrap = refl

hours_wrap_negative : 2 ^ 63 ≤ 2562048 * hour
hours_wrap_negative = omega arith
