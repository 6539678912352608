-- ===== src/World/Calls.antt =====
-- Triples of the calls of the database: queries, statements, transactions and scans of rows.
use my_personal_cloud.Prelude.{
  ℕ, ◌≡◌, refl, Bool, true, false, List, [], ◌∷◌, Option, none, some, All, Bool-cases, inl, inr,
  if◌then◌else◌,
}
use my_personal_cloud.World.{
  Database, Disk, World, Response, Outcome, stop, next, after, or_reply, next_fault, query, exec,
  written, scan_all, scan_some, or_rollback, commit, used, fetch, execute, transact, begin,
}
use my_personal_cloud.World.Triple.{Assertion, Post, Triple, bind-Triple}

if_none :
    {A : Type 0} (R : Option A → Type 0) (b : Bool) (o : Option A)
    → R none
    → R o
    → R (if b then none else o)
if_none R true o h k = h
if_none R false o h k = k

kept_some :
    {A : Type 0} (b : Bool) (o : Option A) {x : A} → (if b then none else o) ≡ some x → o ≡ some x
kept_some true o e = absurd (cc e)
kept_some false o e = e

-- What is known of the answer of a query.
abbrev Answered : {A : Type 0} → Assertion → (Database → A) → Option A → Assertion
Answered P f none = P
Answered P f (some a) = λ db disk. P db disk × (a ≡ f db)

abbrev Changed : Assertion → (ℕ → Assertion) → Option ℕ → Assertion
Changed P Q none = P
Changed P Q (some n) = Q n

module _ {B : Type 0} where
  written_run :
      (E : Response B → Assertion) (Q : Option ℕ → Assertion) (o : Option (Database × ℕ))
      (w : World)
      → Q none w.db w.disk
      → ((db : Database) (n : ℕ) → o ≡ some (db, n) → Q (some n) db w.disk)
      → let (result, w') = written {B = B} o w in Post E Q result w'.db w'.disk
  written_run E Q none w h k = h
  written_run E Q (some (db, n)) w h k = k db n refl

  module _ (P : Assertion) (E : Response B → Assertion) where
    scanned :
        {A : Type 0} (x : A) (xs : List A) (o : Outcome B (List A) × World)
        → Post E (λ ys db disk. P db disk × (ys ≡ xs)) o.0 o.1.db o.1.disk
        → let (result, w') = after o (λ ys v. (next (x ∷ ys), v)) in
          Post E (λ ys db disk. P db disk × (ys ≡ x ∷ xs)) result w'.db w'.disk
    scanned x xs (stop r, w) h = h
    scanned x xs (next ys, w) (p, e) = (p, rw e refl)

    scan_all_run :
        {A : Type 0} (xs : List A) (r : Response B)
        → ((db : Database) (disk : Disk) → P db disk → E r db disk)
        → (w : World) → P w.db w.disk
        → let (result, w') = scan_all xs r w in
          Post E (λ ys db disk. P db disk × (ys ≡ xs)) result w'.db w'.disk
    unfolding scan_all
    scan_all_run [] r h w p = (p, refl)
    scan_all_run (x ∷ xs) r h w p = elim (Bool-cases (next_fault w.faults)) [
      | inl e ↦ rw e (h w.db w.disk p)
      | inr e ↦ rw e (scanned x xs (scan_all xs r (used w)) (scan_all_run xs r h (used w) p))
    ]

    scanned_some :
        {A : Type 0} (f : List A → List A) (o : Outcome B (List A) × World)
        → Post E (λ _. P) o.0 o.1.db o.1.disk
        → let (result, w') = after o (λ ys v. (next (f ys), v)) in
          Post E (λ _. P) result w'.db w'.disk
    scanned_some f (stop r, w) h = h
    scanned_some f (next ys, w) h = h

    scan_some_run :
        {A : Type 0} (xs : List A) (w : World)
        → P w.db w.disk
        → let (result, w') = scan_some xs w in Post E (λ _. P) result w'.db w'.disk
    unfolding scan_some
    scan_some_run [] w p = p
    scan_some_run (x ∷ xs) w p =
        scanned_some (λ ys. if next_fault w.faults then ys else x ∷ ys) (scan_some xs (used w))
          (scan_some_run xs (used w) p)

    module _ {A : Type 0} (Q : A → Type 0) where
      scanned_all :
          (f : Bool) (x : A) (o : Outcome B (List A) × World)
          → Q x
          → Post E (λ ys db disk. P db disk × All Q ys) o.0 o.1.db o.1.disk
          → let (result, w') = after o (λ ys v. (next (if f then ys else x ∷ ys), v)) in
            Post E (λ ys db disk. P db disk × All Q ys) result w'.db w'.disk
      scanned_all f x (stop r, w) q h = h
      scanned_all true x (next ys, w) q h = h
      scanned_all false x (next ys, w) q h = (h.0, (q, h.1))

      scan_some_all :
          (xs : List A) (w : World)
          → All Q xs
          → P w.db w.disk
          → let (result, w') = scan_some xs w in
            Post E (λ ys db disk. P db disk × All Q ys) result w'.db w'.disk
      unfolding scan_some
      scan_some_all [] w q p = (p, tt)
      scan_some_all (x ∷ xs) w q p =
          scanned_all (next_fault w.faults) x (scan_some xs (used w)) q.0
            (scan_some_all xs (used w) q.1 p)

  module _ {P : Assertion} {E : Response B → Assertion} where
    pub query-Triple :
        {A : Type 0} {Q : Option A → Assertion} (f : Database → A)
        → ((db : Database) (disk : Disk) → P db disk → Q none db disk)
        → ((db : Database) (disk : Disk) → P db disk → Q (some (f db)) db disk)
        → Triple P E Q (query f)
    unfolding query
    query-Triple {Q} f h k = record {
      run = λ w p.
          if_none (λ o. Q o w.db w.disk) (next_fault w.faults) (some (f w.db)) (h w.db w.disk p)
            (k w.db w.disk p);
    }

    pub exec-Triple :
        {Q : Option ℕ → Assertion} (f : Database → Option (Database × ℕ))
        → ((db : Database) (disk : Disk) → P db disk → Q none db disk)
        → ((db : Database) (disk : Disk) (db' : Database) (n : ℕ)
            → P db disk
            → f db ≡ some (db', n)
            → Q (some n) db' disk)
        → Triple P E Q (exec f)
    unfolding exec
    exec-Triple {Q} f h k = record {
      run = λ w p.
          written_run E Q (if next_fault w.faults then none else f w.db) (used w) (h w.db w.disk p)
            (λ db' n e. k w.db w.disk db' n p (kept_some (next_fault w.faults) (f w.db) e));
    }

    answered-or_reply :
        {A : Type 0} (f : Database → A) (r : Response B)
        → ((db : Database) (disk : Disk) → P db disk → E r db disk)
        → (o : Option A)
        → Triple (Answered P f o) E (λ a db disk. P db disk × (a ≡ f db)) (or_reply o r)
    unfolding or_reply
    answered-or_reply f r h none = record { run = λ w p. h w.db w.disk p }
    answered-or_reply f r h (some a) = record { run = λ w p. p }

    pub fetch-Triple :
        {A : Type 0} (f : Database → A) (r : Response B)
        → ((db : Database) (disk : Disk) → P db disk → E r db disk)
        → Triple P E (λ a db disk. P db disk × (a ≡ f db)) (fetch f r)
    unfolding fetch
    fetch-Triple f r h =
        bind-Triple {Q = Answered P f} (query-Triple f (λ db disk p. p) (λ db disk p. (p, refl)))
          (answered-or_reply f r h)

    changed-or_reply :
        {Q : ℕ → Assertion} (r : Response B)
        → ((db : Database) (disk : Disk) → P db disk → E r db disk)
        → (o : Option ℕ) → Triple (Changed P Q o) E Q (or_reply o r)
    unfolding or_reply
    changed-or_reply r h none = record { run = λ w p. h w.db w.disk p }
    changed-or_reply r h (some a) = record { run = λ w p. p }

    pub execute-Triple :
        {Q : ℕ → Assertion} (f : Database → Option (Database × ℕ)) (r : Response B)
        → ((db : Database) (disk : Disk) → P db disk → E r db disk)
        → ((db : Database) (disk : Disk) (db' : Database) (n : ℕ)
            → P db disk
            → f db ≡ some (db', n)
            → Q n db' disk)
        → Triple P E Q (execute f r)
    unfolding execute
    execute-Triple {Q} f r h k =
        bind-Triple {Q = Changed P Q} (exec-Triple f (λ db disk p. p) k) (changed-or_reply r h)

    changed-or_rollback :
        {Q : ℕ → Assertion} (saved : Database) (r : Response B)
        → ((db : Database) (disk : Disk) → P db disk → E r saved disk)
        → (o : Option ℕ) → Triple (Changed P Q o) E Q (or_rollback saved o r)
    unfolding or_rollback
    changed-or_rollback saved r h none = record { run = λ w p. h w.db w.disk p }
    changed-or_rollback saved r h (some a) = record { run = λ w p. p }

    pub transact-Triple :
        {Q : ℕ → Assertion} (saved : Database) (f : Database → Option (Database × ℕ))
        (r : Response B)
        → ((db : Database) (disk : Disk) → P db disk → E r saved disk)
        → ((db : Database) (disk : Disk) (db' : Database) (n : ℕ)
            → P db disk
            → f db ≡ some (db', n)
            → Q n db' disk)
        → Triple P E Q (transact saved f r)
    unfolding transact
    transact-Triple {Q} saved f r h k =
        bind-Triple {Q = Changed P Q} (exec-Triple f (λ db disk p. p) k)
          (changed-or_rollback saved r h)

    committed :
        (saved : Database) (r : Response B)
        → ((db : Database) (disk : Disk) → P db disk → E r saved disk)
        → (o : Option (Unit {0})) → Triple P E (λ _. P) (or_rollback saved o r)
    unfolding or_rollback
    committed saved r h none = record { run = λ w p. h w.db w.disk p }
    committed saved r h (some a) = record { run = λ w p. p }

    pub commit-Triple :
        (saved : Database) (r : Response B)
        → ((db : Database) (disk : Disk) → P db disk → E r saved disk)
        → Triple P E (λ _. P) (commit saved r)
    unfolding commit
    commit-Triple saved r h =
        bind-Triple {Q = λ _. P} (query-Triple (λ _. tt) (λ db disk p. p) (λ db disk p. p))
          (committed saved r h)

    pub scan_all-Triple :
        {A : Type 0} (xs : List A) (r : Response B)
        → ((db : Database) (disk : Disk) → P db disk → E r db disk)
        → Triple P E (λ ys db disk. P db disk × (ys ≡ xs)) (scan_all xs r)
    scan_all-Triple xs r h = record { run = scan_all_run P E xs r h }

    pub scan_some-Triple : {A : Type 0} (xs : List A) → Triple P E (λ _. P) (scan_some xs)
    scan_some-Triple xs = record { run = scan_some_run P E xs }

    -- The rows that are scanned are some of those that were found.
    pub scan_some-Triple_all :
        {A : Type 0} (Q : A → Type 0) (xs : List A)
        → All Q xs
        → Triple P E (λ ys db disk. P db disk × All Q ys) (scan_some xs)
    scan_some-Triple_all Q xs q = record { run = λ w p. scan_some_all P E Q xs w q p }

    pub begin-Triple :
        (r : Response B)
        → ((db : Database) (disk : Disk) → P db disk → E r db disk)
        → Triple P E (λ saved db disk. P db disk × (saved ≡ db)) (begin r)
    unfolding begin
    begin-Triple r h = fetch-Triple (λ db. db) r h
