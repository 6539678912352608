-- ===== src/Backup/Format.antt =====
-- A backup is opened with the key that it was made with.
use my_personal_cloud.Prelude.{
  ℕ, ◌≡◌, refl, sym, ◌∙◌, ◌++◌, ◌==◌, eq_iff, ◌⊎◌, inl, inr, true, false, [], ◌∷◌, Option, some,
  Text, arith, ltb, length, length-append, take, drop, take-append, drop-append, Bool-cases,
}
use my_personal_cloud.Backup.{
  Bytes, Crypto, unpacked, is_key, nonce_size, salt_size, key_default, key_passkey, backup_version,
  default_key, sealed, create_backup, open_sealed, open_backup,
}

-- `Open` gives back what `Seal` has encrypted.
abbrev pub OpensSealed : Crypto → Type 0
OpensSealed c =
    (key nonce plaintext : Bytes)
    → c.gcm_open key nonce (c.gcm_seal key nonce plaintext) ≡ some plaintext

given_passkey :
    (passkey : Text) (given : Option Text)
    → (passkey == []) ≡ false
    → (passkey ≡ []) ⊎ (given ≡ some passkey)
    → given ≡ some passkey
given_passkey passkey given e (inl f) =
    let clash : (passkey == []) ≡ true = (eq_iff passkey []).1 f in absurd (cc (sym e ∙ clash))
given_passkey passkey given e (inr f) = f

module _ (c : Crypto) (jwt_secret : Bytes) where
  open_sealed-seal :
      (key nonce plaintext : Bytes)
      → OpensSealed c
      → is_key key ≡ true
      → length nonce ≡ nonce_size
      → open_sealed c jwt_secret key (nonce ++ c.gcm_seal key nonce plaintext) ≡ unpacked plaintext
  unfolding open_sealed
  open_sealed-seal key nonce plaintext opens k n =
      let cipher : Bytes = c.gcm_seal key nonce plaintext in
      let long : ltb (length (nonce ++ cipher)) nonce_size ≡ false =
        rw (length-append nonce cipher) (ground arith) in
      let first : take nonce_size (nonce ++ cipher) ≡ nonce = rw n at (take-append nonce cipher) in
      let rest : drop nonce_size (nonce ++ cipher) ≡ cipher = rw n at (drop-append nonce cipher) in
      rw (long, k, first, rest, opens key nonce plaintext) refl

  layout : ℕ → Bytes → Bytes → Bytes → Bytes → Bytes
  layout key_type salt key nonce plaintext =
      backup_version ∷ key_type ∷ (salt ++ (nonce ++ c.gcm_seal key nonce plaintext))

  sealed-layout :
      (key_type : ℕ) (salt key nonce plaintext file : Bytes)
      → sealed c jwt_secret key_type salt key (some nonce) plaintext ≡ some file
      → (is_key key ≡ true) × (layout key_type salt key nonce plaintext ≡ file)
  unfolding layout
  sealed-layout key_type salt key nonce plaintext file h = elim (Bool-cases (is_key key)) [
    | inl e ↦ (e, cc (rw e at h))
    | inr e ↦ absurd (cc (rw e at h))
  ]

  layout_opens_default :
      (given : Option Text) (nonce plaintext : Bytes)
      → OpensSealed c
      → is_key (default_key c jwt_secret) ≡ true
      → length nonce ≡ nonce_size
      → open_backup c jwt_secret given
          (layout key_default [] (default_key c jwt_secret) nonce plaintext)
        ≡ unpacked plaintext
  unfolding open_backup layout
  layout_opens_default given nonce plaintext opens k ln =
      open_sealed-seal (default_key c jwt_secret) nonce plaintext opens k ln

  layout_opens_passkey :
      (passkey : Text) (salt nonce plaintext : Bytes)
      → OpensSealed c
      → length salt ≡ salt_size
      → is_key (c.pbkdf2 passkey salt) ≡ true
      → length nonce ≡ nonce_size
      → open_backup c jwt_secret
          (some passkey)
          (layout key_passkey salt (c.pbkdf2 passkey salt) nonce plaintext)
        ≡ unpacked plaintext
  unfolding open_backup layout
  layout_opens_passkey passkey salt nonce plaintext opens ls k ln =
      let key : Bytes = c.pbkdf2 passkey salt in
      let tail : Bytes = nonce ++ c.gcm_seal key nonce plaintext in
      let long : ltb (length (salt ++ tail)) salt_size ≡ false =
        rw (length-append salt tail) (ground arith) in
      let first : take salt_size (salt ++ tail) ≡ salt = rw ls at (take-append salt tail) in
      let rest : drop salt_size (salt ++ tail) ≡ tail = rw ls at (drop-append salt tail) in
      rw (long, first, rest) (open_sealed-seal key nonce plaintext opens k ln)

  -- Where `Open` reverses `Seal`, and with a salt of 32 bytes and a nonce of 12: RestoreBackup
  -- decrypts a file of CreateBackup to the archive that went in, when it is given the same passkey,
  -- or when none was used and it is given any.
  pub backup_opens :
      (passkey : Text) (given : Option Text) (salt nonce plaintext file : Bytes)
      → OpensSealed c
      → length salt ≡ salt_size
      → length nonce ≡ nonce_size
      → (passkey ≡ []) ⊎ (given ≡ some passkey)
      → create_backup c jwt_secret passkey (some salt) (some nonce) plaintext ≡ some file
      → open_backup c jwt_secret given file ≡ unpacked plaintext
  unfolding create_backup
  backup_opens passkey given salt nonce plaintext file opens ls ln same h =
      elim (Bool-cases (passkey == [])) [
        | inl e ↦
            let (k, file_is) =
              sealed-layout key_default [] (default_key c jwt_secret) nonce plaintext file
                (rw e at h) in
            rw (← file_is) (layout_opens_default given nonce plaintext opens k ln)
        | inr e ↦
            let (k, file_is) =
              sealed-layout key_passkey salt (c.pbkdf2 passkey salt) nonce plaintext file
                (rw e at h) in
            rw (← file_is, given_passkey passkey given e same)
              (layout_opens_passkey passkey salt nonce plaintext opens ls k ln)
      ]
