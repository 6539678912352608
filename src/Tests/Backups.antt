-- ===== src/Tests/Backups.antt =====
-- Runs of making and opening backups, with a cipher that writes the key and the nonce before the text.
use mathlib.Core.List.{append_assoc}
use my_personal_cloud.Prelude.{
  ℕ, zero, suc, ◌≡◌, refl, sym, ◌∙◌, ◌++◌, ◌==◌, [], ◌∷◌, Option, none, some, codes, arith, nat_eq,
  if◌then◌else◌,
}
use my_personal_cloud.Backup.{
  Bytes, Crypto, unpacked, bad_key, create_backup, open_sealed, open_backup,
}
use my_personal_cloud.Backup.Format.{OpensSealed}
use my_personal_cloud.Backup.Genuine.{OpensOnlySealed, Created, open_backup-Created}

unfoldable pub strip : Bytes → Bytes → Option Bytes
strip [] t = some t
strip (x ∷ s) [] = none
strip (x ∷ s) (y ∷ t) = let rest = strip s t in if nat_eq x y then rest else none

strip-append : (s t : Bytes) → strip s (s ++ t) ≡ some t
unfolding strip
strip-append [] t = refl
strip-append (x ∷ s) t = ground (arith, strip-append s t)

strip_sound : (s t u : Bytes) → strip s t ≡ some u → t ≡ s ++ u
unfolding strip
strip_sound [] t u h = cc h
strip_sound (x ∷ s) [] u h = absurd (cc h)
strip_sound (x ∷ s) (y ∷ t) u h = ground (arith, strip_sound s t u)

abbrev pub zeros : ℕ → Bytes
zeros zero = []
zeros (suc n) = 0 ∷ zeros n

abbrev pub crypto : Crypto
crypto = record {
  sha256 = λ bytes. zeros 32;
  pbkdf2 = λ passkey salt. passkey ++ zeros 28;
  gcm_seal = λ key drawn plaintext. key ++ (drawn ++ plaintext);
  gcm_open = λ key drawn ciphertext. strip (key ++ drawn) ciphertext;
}

pub crypto-OpensSealed : OpensSealed crypto
crypto-OpensSealed key drawn plaintext =
    rw (sym (append_assoc key drawn plaintext)) (strip-append (key ++ drawn) plaintext)

crypto-OpensOnlySealed : OpensOnlySealed crypto
crypto-OpensOnlySealed key drawn ciphertext plaintext h =
    strip_sound (key ++ drawn) ciphertext plaintext h ∙ append_assoc key drawn plaintext

abbrev pub salt : Bytes
salt = zeros 32

abbrev pub drawn_nonce : Bytes
drawn_nonce = zeros 12

abbrev archive : Bytes
archive = 5 ∷ 6 ∷ []

abbrev backup_file : Bytes
backup_file =
    1 ∷ 1 ∷ (salt ++ (drawn_nonce ++ ((codes "abcd" ++ zeros 28) ++ (drawn_nonce ++ archive))))

create_run :
    create_backup crypto [] (codes "abcd") (some salt) (some drawn_nonce) archive ≡ some backup_file
unfolding create_backup ◌==◌
create_run = refl

open_run : open_backup crypto [] (some (codes "abcd")) backup_file ≡ unpacked archive
unfolding open_backup open_sealed strip
open_run = refl

-- Another passkey is refused.
wrong_passkey_run : open_backup crypto [] (some (codes "abce")) backup_file ≡ bad_key
unfolding open_backup open_sealed strip
wrong_passkey_run = refl

open_backup-Created_example :
    Created crypto [] crypto-OpensOnlySealed (some (codes "abcd")) archive backup_file
open_backup-Created_example =
    open_backup-Created crypto [] crypto-OpensOnlySealed (some (codes "abcd")) backup_file archive
      (λ e. cc e) open_run
