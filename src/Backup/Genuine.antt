-- ===== src/Backup/Genuine.antt =====
-- Only files that were made with the key are opened as backups.
use my_personal_cloud.Prelude.{
  ◌≡◌, ◌≢◌, refl, sym, ap, ◌∙◌, ◌++◌, ◌==◌, eq_false, ◌⊎◌, inl, inr, true, [], ◌∷◌, Option, none,
  some, Text, arith, nat_eq, ltb, length, take, drop, take-drop, length-take, Bool-cases,
}
use my_personal_cloud.Backup.{
  Bytes, Crypto, unpacked, is_key, nonce_size, salt_size, key_default, key_passkey, backup_version,
  default_key, create_backup, decrypted, open_sealed, open_passkey, open_backup,
}

-- `Open` refuses everything that `Seal` does not make of what it would give.
abbrev pub OpensOnlySealed : Crypto → Type 0
OpensOnlySealed c =
    (key nonce ciphertext plaintext : Bytes)
    → c.gcm_open key nonce ciphertext ≡ some plaintext
    → ciphertext ≡ c.gcm_seal key nonce plaintext

module _ (c : Crypto) (jwt_secret : Bytes) (only : OpensOnlySealed c) where
  -- What is known of the bytes from the nonce on when they were decrypted.
  abbrev Opened : Bytes → Bytes → Bytes → Type 0
  Opened key rest plaintext =
      (is_key key ≡ true)
      × (length (take nonce_size rest) ≡ nonce_size)
      × (take nonce_size rest ++ c.gcm_seal key (take nonce_size rest) plaintext ≡ rest)

  decrypted-some :
      (o : Option Bytes) (plaintext : Bytes)
      → decrypted c jwt_secret o ≡ unpacked plaintext
      → o ≡ some plaintext
  decrypted-some none plaintext h = absurd (cc h)
  decrypted-some (some p) plaintext h = cc h

  open_sealed-Opened :
      (key rest plaintext : Bytes)
      → open_sealed c jwt_secret key rest ≡ unpacked plaintext
      → Opened key rest plaintext
  unfolding open_sealed
  open_sealed-Opened key rest plaintext h = elim (Bool-cases (ltb (length rest) nonce_size)) [
    | inl e ↦ absurd (cc (rw e at h))
    | inr e ↦ elim (Bool-cases (is_key key)) [
      | inl k ↦
          let first : Bytes = take nonce_size rest in
          let opened : c.gcm_open key first (drop nonce_size rest) ≡ some plaintext =
            decrypted-some _ plaintext (rw (e, k) at h) in
          (
            k,
            length-take nonce_size rest (ground arith),
            ap (λ s. first ++ s) (sym (only key first (drop nonce_size rest) plaintext opened))
                ∙ take-drop nonce_size rest,
          )
      | inr k ↦ absurd (cc (rw (e, k) at h))
    ]
  ]

  -- CreateBackup makes the file from the plaintext, with a passkey that was given, or with none.
  abbrev pub Created : Option Text → Bytes → Bytes → Type 0
  Created given plaintext file =
      (passkey : Text) × (salt : Bytes) × (nonce : Bytes) × (length nonce ≡ nonce_size)
      × ((passkey ≡ []) ⊎ ((given ≡ some passkey) × (length salt ≡ salt_size)))
      × (create_backup c jwt_secret passkey (some salt) (some nonce) plaintext ≡ some file)

  opened_default :
      (given : Option Text) (rest plaintext : Bytes)
      → open_sealed c jwt_secret (default_key c jwt_secret) rest ≡ unpacked plaintext
      → Created given plaintext (backup_version ∷ key_default ∷ rest)
  unfolding create_backup ◌==◌
  opened_default given rest plaintext h =
      let (k, n, same) = open_sealed-Opened (default_key c jwt_secret) rest plaintext h in
      ([], [], take nonce_size rest, n, inl refl, rw (k, same) refl)

  opened_passkey :
      (given : Option Text) (rest plaintext : Bytes)
      → given ≢ some []
      → open_passkey c jwt_secret given rest ≡ unpacked plaintext
      → Created given plaintext (backup_version ∷ key_passkey ∷ rest)
  unfolding create_backup
  opened_passkey none rest plaintext e h = absurd (cc h)
  opened_passkey (some passkey) rest plaintext e h =
      elim (Bool-cases (ltb (length rest) salt_size)) [
        | inl f ↦ absurd (cc (rw f at h))
        | inr f ↦
            let salt : Bytes = take salt_size rest in
            let (k, n, same) =
              open_sealed-Opened (c.pbkdf2 passkey salt) (drop salt_size rest) plaintext
                (rw f at h) in
            (
              passkey,
              salt,
              take nonce_size (drop salt_size rest),
              n,
              inr (refl, length-take salt_size rest (ground arith)),
              rw (eq_false passkey [] (λ q. e (ap some q)), k, same, take-drop salt_size rest) refl,
            )
      ]

  -- Where `Open` refuses what `Seal` has not made: a file that RestoreBackup decrypts, with a
  -- passkey that is not empty or with none, is byte for byte one that CreateBackup makes of the
  -- archive with that passkey or with the server's default key, and some salt and nonce of the
  -- right sizes.
  pub open_backup-Created :
      (given : Option Text) (file plaintext : Bytes)
      → given ≢ some []
      → open_backup c jwt_secret given file ≡ unpacked plaintext
      → Created given plaintext file
  unfolding open_backup
  open_backup-Created given [] plaintext e h = absurd (cc h)
  open_backup-Created given (version ∷ []) plaintext e h = absurd (cc h)
  open_backup-Created given (version ∷ key_type ∷ rest) plaintext e h =
      elim (Bool-cases (nat_eq version backup_version)) [
        | inr f ↦ absurd (cc (rw f at h))
        | inl f ↦
            let v : version ≡ backup_version = ground arith in
            elim (Bool-cases (nat_eq key_type key_default)) [
              | inl d ↦
                  let k : key_type ≡ key_default = ground arith in
                  rw (v, k) (opened_default given rest plaintext (rw (f, d) at h))
              | inr d ↦ elim (Bool-cases (nat_eq key_type key_passkey)) [
                | inl q ↦
                    let k : key_type ≡ key_passkey = ground arith in
                    rw (v, k) (opened_passkey given rest plaintext e (rw (f, d, q) at h))
                | inr q ↦ absurd (cc (rw (f, d, q) at h))
              ]
            ]
      ]
