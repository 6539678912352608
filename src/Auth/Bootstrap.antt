-- ===== src/Auth/Bootstrap.antt =====
-- The user that EnsureUser of internal/auth/auth.go makes can log in.
use my_personal_cloud.Prelude.{
  ℕ, suc, ◌<◌, ◌≡◌, refl, ◌++◌, ◌==◌, ◌||◌, true, false, List, [], ◌∷◌, some, Text, arith, eq_refl,
  All, any, find, Bool-cases, Option-cases, inl, inr,
}
use my_personal_cloud.Sql.{count}
use my_personal_cloud.World.{
  World, UserRow, Database, stop, next, json, ◌>>=◌, pure, reply, or_reply, clock, query, exec,
  next_fault, used,
}
use my_personal_cloud.Auth.Tokens.{Library, Service, issue_token}
use my_personal_cloud.Auth.Service.{
  ensured, session, is_named, next_id, insert_user, hash_password, create_missing, insert_hashed,
  ensure_user, login, login_handler,
}
use my_personal_cloud.Auth.Users.{next_id-above}

-- `CompareHashAndPassword` accepts a password against its own hash.
abbrev pub AcceptsOwnHash : Library → Type 0
AcceptsOwnHash lib =
    (n : ℕ) (password hash : Text)
    → lib.hash n password ≡ some hash
    → lib.compare hash password ≡ true

find-missing :
    (name : Text) (us : List UserRow) (v : UserRow)
    → any (is_named name) us ≡ false
    → is_named name v ≡ true
    → find (is_named name) (us ++ v ∷ []) ≡ some v
find-missing name [] v h e = rw e refl
find-missing name (u ∷ us) v h e =
    let other : is_named name u ≡ false = ground arith in
    rw other (find-missing name us v (ground arith) e)

count-any :
    (name : Text) (us : List UserRow)
    → any (is_named name) us ≡ false
    → count (is_named name) us ≡ 0
count-any name [] h = refl
count-any name (u ∷ us) h = ground (arith, count-any name us)

module _ (lib : Library) (accepts : AcceptsOwnHash lib) (B : Type 0) (name password : Text) where
  -- The user is there, with a hash that matches the password.
  abbrev Present : ℕ → Database → Type 0
  Present id db =
      (u : UserRow) × (find (is_named name) db.users ≡ some u)
      × (u.id ≡ id)
      × (lib.compare u.password_hash password ≡ true)

  insert_user-Present :
      (n k : ℕ) (hash : Text) (db db' : Database)
      → lib.hash n password ≡ some hash
      → any (is_named name) db.users ≡ false
      → insert_user name hash db ≡ some (db', k)
      → Present (next_id db.users) db'
  unfolding insert_user
  insert_user-Present n k hash db db' made free e =
      let row : UserRow = record { id = next_id db.users; username = name; password_hash = hash } in
      let db_is : db' ≡ record db { users = db.users ++ row ∷ [] } = cc (rw free at e) in
      rw db_is (
        row,
        find-missing name db.users row free (eq_refl name),
        refl,
        accepts n password hash made,
      )

  inserted_row :
      (n : ℕ) (hash : Text) (w w' : World)
      → lib.hash n password ≡ some hash
      → any (is_named name) w.db.users ≡ false
      → insert_hashed lib {B = B} name (some hash) w ≡ (next ensured, w')
      → Present (next_id w.db.users) w'.db
  unfolding exec pure ◌>>=◌
  inserted_row n hash w w' made free h = elim (Bool-cases (next_fault w.faults)) [
    | inl e ↦ absurd (cc (rw e at h))
    | inr e ↦ elim (Option-cases (insert_user name hash w.db)) [
      | inl f ↦ absurd (cc (rw (e, f) at h))
      | inr ((db', k), f) ↦
          let world_is : record (used w) { db = db' } ≡ w' = cc (rw (e, f) at h) in
          rw (← world_is) (insert_user-Present n k hash w.db db' made free f)
    ]
  ]

  created_user :
      (w w' : World)
      → any (is_named name) w.db.users ≡ false
      → create_missing lib {B = B} name password (some 0) w ≡ (next ensured, w')
      → Present (next_id w.db.users) w'.db
  unfolding hash_password pure ◌>>=◌
  created_user w w' free h = elim (Option-cases (lib.hash w.uuids_used password)) [
    | inl e ↦ absurd (cc (rw e at h))
    | inr (hash, e) ↦
        inserted_row w.uuids_used hash (record w { uuids_used = suc w.uuids_used }) w' e free
          (rw e at h)
  ]

  -- A new user is there with the password when EnsureUser succeeds.
  ensure_user-Present :
      (w w' : World)
      → any (is_named name) w.db.users ≡ false
      → ensure_user lib {B = B} name password w ≡ (next ensured, w')
      → Present (next_id w.db.users) w'.db
  unfolding ensure_user query pure ◌>>=◌
  ensure_user-Present w w' free h = elim (Bool-cases (name == [] || password == [])) [
    | inl e ↦ absurd (cc (rw e at h))
    | inr e ↦ elim (Bool-cases (next_fault w.faults)) [
      | inl f ↦ absurd (cc (rw (e, f) at h))
      | inr f ↦ created_user (used w) w' free (rw (e, f, count-any name w.db.users free) at h)
    ]
  ]

  -- Where bcrypt accepts a password against its hash: when EnsureUser succeeds for a name that no
  -- user had, whichever calls failed on the way, then a login with the name and the password, in
  -- which no call fails, is answered with a token that is signed for the new user, whose
  -- identifier is larger than all others.
  pub ensured_user_logs_in :
      (service : Service) (token : Text) (w w' : World)
      → any (is_named name) w.db.users ≡ false
      → ensure_user lib {B = B} name password w ≡ (next ensured, w')
      → let id = next_id w.db.users in
        issue_token lib service (false, id) name w'.now ≡ some token
        → (login_handler lib service (some (name, password)) (record w' { faults = [] }) ≡ (
          stop (
              json 200
                (session token (record { id = (false, id); username = name }) service.expiry)),
          record w' { faults = [] },
        ))
          × All (λ (u : UserRow). u.id < id) w.db.users
  unfolding login_handler login or_reply query clock pure reply ◌>>=◌
  ensured_user_logs_in service token w w' free h made =
      let (u, found, id_is, matches) = ensure_user-Present w w' free h in
      (rw (found, matches, id_is, made) refl, next_id-above w.db.users)
