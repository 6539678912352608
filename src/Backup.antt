-- ===== src/Backup.antt =====
-- The format of encrypted backups, internal/backup/backup.go: the part of CreateBackup behind
-- buildZip, and the part of RestoreBackup before the archive is read. Bytes are numbers.
pub mod Archive
pub mod Below
pub mod Calls
pub mod Copies
pub mod Copying
pub mod Format
pub mod Genuine
pub mod Journey
pub mod Leads
pub mod Outcomes
pub mod Places
pub mod Restored
pub mod Restoring
pub mod Roundtrip
pub mod Runs
pub mod Service
pub mod Settled
pub mod Site
pub mod Writes
use my_personal_cloud.Prelude.{
  ℕ, ◌++◌, ◌==◌, Bool, true, false, ◌||◌, List, [], ◌∷◌, Option, none, some, Text, codes, nat_eq,
  ltb, length, take, drop, if◌then◌else◌,
}

abbrev pub Bytes : Type 0
Bytes = List ℕ

-- SHA-256, PBKDF2 with 4096 rounds and 32 bytes of a passkey and a salt, and `Seal` and `Open` of
-- AES-GCM of a key, a nonce and a text, without additional data.
pub record Crypto : Type 0 where
  pub sha256 : Bytes → Bytes
  pub pbkdf2 : Text → Bytes → Bytes
  pub gcm_seal : Bytes → Bytes → Bytes → Bytes
  pub gcm_open : Bytes → Bytes → Bytes → Option Bytes

abbrev pub backup_version : ℕ
backup_version = 1

abbrev pub key_default : ℕ
key_default = 0

abbrev pub key_passkey : ℕ
key_passkey = 1

abbrev pub nonce_size : ℕ
nonce_size = 12

abbrev pub salt_size : ℕ
salt_size = 32

-- `aes.NewCipher` takes keys of these sizes only.
abbrev pub is_key : Bytes → Bool
is_key key = nat_eq (length key) 16 || nat_eq (length key) 24 || nat_eq (length key) 32

-- What RestoreBackup makes of a file before it reads the archive.
pub data Unpacked : Type 0 where
  bad_magic : Unpacked
  unsupported_version : ℕ → Unpacked
  passkey_required : Unpacked
  unknown_key_type : ℕ → Unpacked
  cipher_failed : Unpacked
  bad_key : Unpacked
  unpacked : Bytes → Unpacked

module _ (c : Crypto) (jwt_secret : Bytes) where
  -- `defaultKey`
  unfoldable pub default_key : Bytes
  default_key = c.sha256 (codes "my-personal-cloud-backup" ++ jwt_secret)

  abbrev pub sealed : ℕ → Bytes → Bytes → Option Bytes → Bytes → Option Bytes
  sealed key_type salt key none plaintext = none
  sealed key_type salt key (some nonce) plaintext =
      if is_key key
      then some (backup_version ∷ key_type ∷ (salt ++ (nonce ++ c.gcm_seal key nonce plaintext)))
      else none

  abbrev pub sealed_with : Text → Option Bytes → Option Bytes → Bytes → Option Bytes
  sealed_with passkey none random plaintext = none
  sealed_with passkey (some salt) random plaintext =
      sealed key_passkey salt (c.pbkdf2 passkey salt) random plaintext

  -- `CreateBackup` of the archive, from the random salt and nonce; none stands for an error.
  unfoldable pub create_backup : Text → Option Bytes → Option Bytes → Bytes → Option Bytes
  create_backup passkey salt random plaintext =
      if passkey == []
      then sealed key_default [] default_key random plaintext
      else sealed_with passkey salt random plaintext

  abbrev pub decrypted : Option Bytes → Unpacked
  decrypted none = bad_key
  decrypted (some plaintext) = unpacked plaintext

  -- From the nonce on.
  unfoldable pub open_sealed : Bytes → Bytes → Unpacked
  open_sealed key rest =
      if ltb (length rest) nonce_size
      then bad_magic
      else if is_key key
      then decrypted (c.gcm_open key (take nonce_size rest) (drop nonce_size rest))
      else cipher_failed

  abbrev pub open_passkey : Option Text → Bytes → Unpacked
  open_passkey none rest = passkey_required
  open_passkey (some passkey) rest =
      if ltb (length rest) salt_size
      then bad_magic
      else open_sealed (c.pbkdf2 passkey (take salt_size rest)) (drop salt_size rest)

  -- `RestoreBackup` up to the decrypted archive.
  unfoldable pub open_backup : Option Text → Bytes → Unpacked
  open_backup passkey [] = bad_magic
  open_backup passkey (version ∷ []) = bad_magic
  open_backup passkey (version ∷ key_type ∷ rest) =
      if nat_eq version backup_version
      then if nat_eq key_type key_default
        then open_sealed default_key rest
        else if nat_eq key_type key_passkey
        then open_passkey passkey rest
        else unknown_key_type key_type
      else unsupported_version version
