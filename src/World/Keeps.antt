-- ===== src/World/Keeps.antt =====
-- What a handler keeps of the database, whichever calls fail: from a database with `P` it ends in
-- one with `P`, and a value that it goes on with meets `G`.
use my_personal_cloud.Prelude.{ℕ, ◌≡◌, refl, Bool, true, List, Option, some, All}
use my_personal_cloud.World.{
  Database, Disk, Env, World, Response, Outcome, stop, next, Handler, ◌>>=◌, reply, pure, require,
  or_reply, clock, new_uuid, query, exec, fetch, execute, scan_all, scan_some, begin, transact,
  commit,
}
use my_personal_cloud.World.Triple.{
  Triple, Post, bind-Triple, pull, reply-Triple, pure-Triple, require-Triple, or_reply-Triple,
  clock-Triple, relax,
}
use my_personal_cloud.World.Calls.{
  query-Triple, exec-Triple, fetch-Triple, execute-Triple, transact-Triple, commit-Triple,
  scan_all-Triple, scan_some-Triple, scan_some-Triple_all, begin-Triple,
}

-- A statement that keeps `P` wherever it succeeds.
abbrev pub Step : (Database → Type 0) → (Database → Option (Database × ℕ)) → Type 0
Step P f = (db db' : Database) (n : ℕ) → P db → f db ≡ some (db', n) → P db'

-- Nothing is known of a value.
abbrev pub Any : {A : Type 0} → A → Type 0
Any a = Unit

-- No value: a handler that goes on with none has stopped with a response.
abbrev pub Never : {A : Type 0} → A → Type 0
Never a = ⊥

-- The same, where the disk keeps `D` too.
pub record Guards {B A : Type 0} (P : Database → Type 0) (D : Disk → Type 0) (G : A → Type 0)
    (m : Handler B A) : Type 0 where
  pub triple :
      Triple
        (λ db disk. P db × D disk)
        (λ r db disk. P db × D disk)
        (λ a db disk. (P db × D disk) × G a)
        m

abbrev pub AnyDisk : Disk → Type 0
AnyDisk disk = Unit

abbrev pub Keeps : {B A : Type 0} → (Database → Type 0) → (A → Type 0) → Handler B A → Type 0
Keeps P G m = Guards P AnyDisk G m

kept_post :
    {B A : Type 0} (P : Database → Type 0) (D : Disk → Type 0) (G : A → Type 0) (o : Outcome B A)
    (db : Database) (disk : Disk)
    → Post (λ r db disk. P db × D disk) (λ a db disk. (P db × D disk) × G a) o db disk
    → P db × D disk
kept_post P D G (stop r) db disk h = h
kept_post P D G (next a) db disk h = h.0

answer_of :
    {B A : Type 0} (P : Database → Type 0) (D : Disk → Type 0) (o : Outcome B A) (db : Database)
    (disk : Disk)
    → Post (λ r db disk. P db × D disk) (λ a db disk. (P db × D disk) × ⊥) o db disk
    → (r : Response B) × (o ≡ stop r)
answer_of P D (stop r) db disk h = (r, refl)
answer_of P D (next a) db disk h = absurd h.1

module _ {B : Type 0} {P : Database → Type 0} {D : Disk → Type 0} where
  pub bind-Keeps :
      {A C : Type 0} {G : A → Type 0} {H : C → Type 0} {m : Handler B A} {k : A → Handler B C}
      → Guards P D G m
      → ((a : A) → G a → Guards P D H (k a))
      → Guards P D H (m >>= k)
  bind-Keeps t f = record { triple = bind-Triple t.triple (λ a. pull (λ g. (f a g).triple)) }

  pub reply-Keeps : {A : Type 0} {G : A → Type 0} (r : Response B) → Guards P D G (reply r)
  reply-Keeps r = record { triple = reply-Triple r (λ db disk p. p) }

  pub pure-Keeps : {A : Type 0} {G : A → Type 0} (a : A) → G a → Guards {B = B} P D G (pure a)
  pure-Keeps a g = record { triple = pure-Triple a (λ db disk p. (p, g)) }

  pub require-Keeps : (b : Bool) (r : Response B) → Guards P D (λ _. b ≡ true) (require b r)
  require-Keeps b r = record { triple = require-Triple b r (λ db disk p. p) }

  pub or_reply-Keeps :
      {A : Type 0} (o : Option A) (r : Response B) → Guards P D (λ a. o ≡ some a) (or_reply o r)
  or_reply-Keeps o r = record { triple = or_reply-Triple o r (λ db disk p. p) }

  pub clock-Keeps : Guards P D Any (clock {B = B})
  clock-Keeps = record { triple = relax clock-Triple (λ a db disk p. (p, tt)) }

  -- The identifier is one of those that are drawn.
  pub new_uuid-Keeps :
      (env : Env) → Guards P D (λ id. (k : ℕ) × (id ≡ env.uuid_of k)) (new_uuid {B = B} env)
  unfolding new_uuid
  new_uuid-Keeps env = record { triple = record { run = λ w p. (p, (w.uuids_used, refl)) } }

  pub query-Keeps : {A : Type 0} (f : Database → A) → Guards P D Any (query {B = B} f)
  query-Keeps f = record { triple = query-Triple f (λ db disk p. (p, tt)) (λ db disk p. (p, tt)) }

  -- The answer comes from some database with `P`.
  pub fetch-Keeps :
      {A : Type 0} (f : Database → A) (r : Response B)
      → Guards P D (λ a. (db : Database) × P db × (a ≡ f db)) (fetch f r)
  fetch-Keeps f r = record {
    triple = relax (fetch-Triple f r (λ db disk p. p)) (λ a db disk p. (p.0, (db, p.0.0, p.1)));
  }

  pub exec-Keeps :
      (f : Database → Option (Database × ℕ)) → Step P f → Guards P D Any (exec {B = B} f)
  exec-Keeps f s = record {
    triple =
        exec-Triple f (λ db disk p. (p, tt)) (λ db disk db' n p e. ((s db db' n p.0 e, p.1), tt));
  }

  pub execute-Keeps :
      (f : Database → Option (Database × ℕ)) (r : Response B)
      → Step P f
      → Guards P D Any (execute f r)
  execute-Keeps f r s = record {
    triple =
        execute-Triple f r (λ db disk p. p) (λ db disk db' n p e. ((s db db' n p.0 e, p.1), tt));
  }

  pub transact-Keeps :
      (saved : Database) (f : Database → Option (Database × ℕ)) (r : Response B)
      → P saved
      → Step P f
      → Guards P D Any (transact saved f r)
  transact-Keeps saved f r q s = record {
    triple =
        transact-Triple saved f r (λ db disk p. (q, p.1))
          (λ db disk db' n p e. ((s db db' n p.0 e, p.1), tt));
  }

  pub commit-Keeps : (saved : Database) (r : Response B) → P saved → Guards P D Any (commit saved r)
  commit-Keeps saved r q = record {
    triple = relax (commit-Triple saved r (λ db disk p. (q, p.1))) (λ a db disk p. (p, tt));
  }

  -- The database at the beginning of a transaction has `P` too.
  pub begin-Keeps : (r : Response B) → Guards P D P (begin r)
  begin-Keeps r = record {
    triple = relax (begin-Triple r (λ db disk p. p)) (λ a db disk p. (p.0, rw p.1 p.0.0));
  }

  pub scan_all-Keeps :
      {A : Type 0} (xs : List A) (r : Response B) → Guards P D (λ ys. ys ≡ xs) (scan_all xs r)
  scan_all-Keeps xs r = record { triple = scan_all-Triple xs r (λ db disk p. p) }

  pub scan_some-Keeps : {A : Type 0} (xs : List A) → Guards P D Any (scan_some {B = B} xs)
  scan_some-Keeps xs = record { triple = relax (scan_some-Triple xs) (λ a db disk p. (p, tt)) }

  pub scan_some-Keeps_all :
      {A : Type 0} (Q : A → Type 0) (xs : List A)
      → All Q xs
      → Guards P D (All Q) (scan_some {B = B} xs)
  scan_some-Keeps_all Q xs q = record { triple = scan_some-Triple_all Q xs q }

  pub regard :
      {A : Type 0} {G H : A → Type 0} {m : Handler B A}
      → ((a : A) → G a → H a)
      → Guards P D G m
      → Guards P D H m
  regard i t = record { triple = relax t.triple (λ a db disk p. (p.0, i a p.1)) }

  pub forget : {A : Type 0} {G : A → Type 0} {m : Handler B A} → Guards P D G m → Guards P D Any m
  forget t = record { triple = relax t.triple (λ a db disk p. (p.0, tt)) }

  pub guarded :
      {A : Type 0} {G : A → Type 0} {m : Handler B A} (w : World)
      → Guards P D G m
      → P w.db
      → D w.disk
      → D (m w).1.disk
  guarded {G} {m} w t p d =
      (kept_post P D G (m w).0 (m w).1.db (m w).1.disk (t.triple.run w (p, d))).1

module _ {B : Type 0} {P : Database → Type 0} where
  pub kept :
      {A : Type 0} {G : A → Type 0} {m : Handler B A} (w : World)
      → Keeps P G m
      → P w.db
      → P (m w).1.db
  kept {G} {m} w t p =
      (kept_post P AnyDisk G (m w).0 (m w).1.db (m w).1.disk (t.triple.run w (p, tt))).0

  -- Such a handler answers.
  pub answered :
      {A : Type 0} {m : Handler B A} (w : World)
      → Keeps P Never m
      → P w.db
      → (r : Response B) × ((m w).0 ≡ stop r)
  answered {m} w t p = answer_of P AnyDisk (m w).0 (m w).1.db (m w).1.disk (t.triple.run w (p, tt))
