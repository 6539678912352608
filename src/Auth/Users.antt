-- ===== src/Auth/Users.antt =====
-- The users that EnsureUser of internal/auth/auth.go makes.
use mathlib.Core.List.{append_assoc, append-nil}
use my_personal_cloud.Prelude.{
  ℕ, ◌<◌, ◌≤◌, ◌≡◌, ◌≢◌, sym, ap, ◌∙◌, ◌++◌, ◌==◌, ◌||◌, false, List, [], ◌∷◌, Option, none, some,
  Text, arith, eq_refl, All, All-append, any, ltb, Bool-cases, inl, inr,
}
use my_personal_cloud.World.{World, UserRow, Database}
use my_personal_cloud.World.Keeps.{
  Step, Any, Keeps, bind-Keeps, pure-Keeps, query-Keeps, exec-Keeps, kept,
}
use my_personal_cloud.Auth.Tokens.{Library}
use my_personal_cloud.Auth.Service.{
  ensured, is_named, next_id, insert_user, hash_password, create_missing, insert_hashed,
  ensure_user,
}

-- No two users have one name or one identifier.
abbrev pub DistinctUsers : List UserRow → Type 0
DistinctUsers [] = Unit
DistinctUsers (u ∷ us) =
    All (λ (v : UserRow). (v.username ≢ u.username) × (v.id ≢ u.id)) us × DistinctUsers us

All-below :
    (m n : ℕ) (us : List UserRow)
    → m ≤ n
    → All (λ (u : UserRow). u.id < m) us
    → All (λ (u : UserRow). u.id < n) us
All-below m n [] h k = tt
All-below m n (u ∷ us) h k = (omega arith, All-below m n us h k.1)

pub next_id-above : (us : List UserRow) → All (λ (u : UserRow). u.id < next_id us) us
unfolding next_id
next_id-above [] = tt
next_id-above (u ∷ us) =
    let above : (next_id us ≤ next_id (u ∷ us)) × (u.id < next_id (u ∷ us)) = ground arith in
    (above.1, All-below (next_id us) (next_id (u ∷ us)) us above.0 (next_id-above us))

Distinct-append :
    (us : List UserRow) (v : UserRow)
    → DistinctUsers us
    → any (is_named v.username) us ≡ false
    → All (λ (u : UserRow). u.id < v.id) us
    → DistinctUsers (us ++ v ∷ [])
Distinct-append [] v d f h = (tt, tt)
Distinct-append (u ∷ us) v d f h =
    let other : u.username == v.username ≡ false = ground arith in
    let rest : any (is_named v.username) us ≡ false = ground arith in
    let below : u.id < v.id = h.0 in
    (
      All-append (λ (x : UserRow). (x.username ≢ u.username) × (x.id ≢ u.id)) us (v ∷ []) d.0
          (
            (
              λ e. absurd (cc (sym other ∙ ap (λ s. u.username == s) e ∙ eq_refl u.username)),
              omega arith,
            ),
            tt,
          ),
      Distinct-append us v d.1 rest h.1,
    )

-- The users are those of before and new ones, still distinct.
abbrev pub Grown : List UserRow → Database → Type 0
Grown before db = DistinctUsers db.users × ((new : List UserRow) × (db.users ≡ before ++ new))

insert_user-Grown :
    (before : List UserRow) (name hash : Text) → Step (Grown before) (insert_user name hash)
unfolding insert_user
insert_user-Grown before name hash db db' n (d, (new, same)) e =
    elim (Bool-cases (any (is_named name) db.users)) [
      | inl f ↦ absurd (cc (rw f at e))
      | inr f ↦
          let row : UserRow = record {
            id = next_id db.users;
            username = name;
            password_hash = hash;
          } in
          let more : DistinctUsers (db.users ++ row ∷ []) =
            Distinct-append db.users row d f (next_id-above db.users) in
          let db_is : db' ≡ record db { users = db.users ++ row ∷ [] } = cc (rw f at e) in
          rw db_is (
            more,
            (new ++ row ∷ [], ap (λ us. us ++ row ∷ []) same ∙ append_assoc before new (row ∷ [])),
          )
    ]

module _ (lib : Library) where
  module _ {B : Type 0} (before : List UserRow) where
    hash_password-Grown :
        (password : Text) → Keeps (Grown before) Any (hash_password lib {B = B} password)
    unfolding hash_password
    hash_password-Grown password = record { triple = record { run = λ w p. (p, tt) } }

    insert_hashed-Grown :
        (name : Text) (o : Option Text)
        → Keeps (Grown before) Any (insert_hashed lib {B = B} name o)
    insert_hashed-Grown name none = pure-Keeps _ tt
    insert_hashed-Grown name (some hash) =
        bind-Keeps (exec-Keeps _ (insert_user-Grown before name hash)) λ done _. pure-Keeps _ tt

    create_missing-Grown :
        (name password : Text) (o : Option ℕ)
        → Keeps (Grown before) Any (create_missing lib {B = B} name password o)
    create_missing-Grown name password none = pure-Keeps _ tt
    create_missing-Grown name password (some n) = elim (Bool-cases (ltb 0 n)) [
      | inl e ↦ rw e (pure-Keeps ensured tt)
      | inr e ↦
          rw e (bind-Keeps (hash_password-Grown password) λ hash _. insert_hashed-Grown name hash)
    ]

    ensure_user-Grown :
        (name password : Text) → Keeps (Grown before) Any (ensure_user lib {B = B} name password)
    unfolding ensure_user
    ensure_user-Grown name password = elim (Bool-cases (name == [] || password == [])) [
      | inl e ↦ rw e (pure-Keeps _ tt)
      | inr e ↦ rw e (bind-Keeps (query-Keeps _) λ n _. create_missing-Grown name password n)
    ]

  -- Whichever calls fail, EnsureUser changes and removes no user, and where no two users had one
  -- name or one identifier before, none have after it.
  pub ensure_user_keeps_users :
      (B : Type 0) (name password : Text) (w : World)
      → DistinctUsers w.db.users
      → Grown w.db.users (ensure_user lib {B = B} name password w).1.db
  ensure_user_keeps_users B name password w d =
      kept w (ensure_user-Grown w.db.users name password) (d, ([], sym (append-nil w.db.users)))
