-- ===== src/World.antt =====
-- The state that the services share: the tables of internal/db/db.go, the files on disk, the clock,
-- and what the outside answers. A handler takes the world to an outcome and the world after it:
-- it has stopped with a response, or goes on with a value. `faults` lists whether each next call
-- of the database or the file system fails; when it is used up, calls succeed. A failing call
-- changes nothing.
pub mod Triple
pub mod Calls
pub mod Keeps
pub mod Passed
use my_personal_cloud.Prelude.{
  ℕ, suc, ◌+◌, ◌==◌, Bool, true, false, ◌||◌, List, [], ◌∷◌, Option, none, some, Text,
  if◌then◌else◌, String,
}

pub record UserRow : Type 0 where
  pub id : ℕ
  pub username : Text
  pub password_hash : Text

-- `deleted_at` is a time in seconds; the code stores it as RFC 3339 text in UTC.
pub record FileRow : Type 0 where
  pub id : Text
  pub user_id : ℕ
  pub name : Text
  pub parent_path : Text
  pub storage_path : Text
  pub mime_type : Text
  pub size_bytes : ℕ
  pub is_image : Bool
  pub created_at : ℕ
  pub deleted_at : Option ℕ

pub record FolderRow : Type 0 where
  pub id : Text
  pub user_id : ℕ
  pub name : Text
  pub parent_path : Text
  pub created_at : ℕ

pub record ShareRow : Type 0 where
  pub id : Text
  pub user_id : ℕ
  pub file_id : Option Text
  pub folder_id : Option Text
  pub token : Text
  pub expires_at : ℕ
  pub max_views : ℕ
  pub current_views : ℕ
  pub is_active : Bool
  pub created_at : ℕ

pub record Database : Type 0 where
  pub users : List UserRow
  pub files : List FileRow
  pub folders : List FolderRow
  pub share_links : List ShareRow

-- The regular files by their paths.
abbrev pub Disk : Type 0
Disk = List (Text × List ℕ)

-- The configuration and the packages outside the repository: the n-th identifier that
-- uuid.NewString gives, the n-th random token, and the content type that net/http detects.
pub record Env : Type 0 where
  pub storage_root : Text
  pub max_upload_bytes : ℕ
  pub uuid_of : ℕ → Text
  pub token_of : ℕ → Text
  pub detect_content_type : List ℕ → Text

pub record World : Type 0 where
  pub db : Database
  pub disk : Disk
  pub faults : List Bool
  pub uuids_used : ℕ
  pub now : ℕ

-- An HTTP response: a bare status, an error object, a JSON object of the service's own, or the
-- bytes of a file with its content type, its length and the header Content-Disposition.
pub data Response (B : Type 0) : Type 0 where
  bare : ℕ → Response B
  error : ℕ → String → Response B
  json : ℕ → B → Response B
  stream : Text → ℕ → Option Text → List ℕ → Response B

abbrev pub status : {B : Type 0} → Response B → ℕ
status (bare n) = n
status (error n message) = n
status (json n body) = n
status (stream mime size disposition bytes) = 200

pub data Outcome (B A : Type 0) : Type 0 where
  stop : Response B → Outcome B A
  next : A → Outcome B A

abbrev pub Handler : Type 0 → Type 0 → Type 0
Handler B A = World → Outcome B A × World

-- An endpoint ends with a response on every path.
abbrev pub Endpoint : Type 0 → Type 0
Endpoint B = Handler B (Unit {0})

-- Whether the next call of the database or the file system fails.
abbrev pub next_fault : List Bool → Bool
next_fault [] = false
next_fault (f ∷ fs) = f

abbrev pub later_faults : List Bool → List Bool
later_faults [] = []
later_faults (f ∷ fs) = fs

abbrev pub used : World → World
used w = record w { faults = later_faults w.faults }

module _ {B : Type 0} where
  abbrev pub after : {A C : Type 0} → Outcome B A × World → (A → Handler B C) → Outcome B C × World
  after (stop r, w) k = (stop r, w)
  after (next a, w) k = k a w

  infixl 5 ◌>>=◌ ◌>>◌
  unfoldable pub ◌>>=◌ : {A C : Type 0} → Handler B A → (A → Handler B C) → Handler B C
  ◌>>=◌ m k w = after (m w) k

  abbrev pub ◌>>◌ : {A C : Type 0} → Handler B A → Handler B C → Handler B C
  m >> k = m >>= λ _. k

  unfoldable pub reply : {A : Type 0} → Response B → Handler B A
  reply r w = (stop r, w)

  unfoldable pub pure : {A : Type 0} → A → Handler B A
  pure a w = (next a, w)

  unfoldable pub require : Bool → Response B → Handler B (Unit {0})
  require true r w = (next tt, w)
  require false r w = (stop r, w)

  unfoldable pub or_reply : {A : Type 0} → Option A → Response B → Handler B A
  or_reply none r w = (stop r, w)
  or_reply (some a) r w = (next a, w)

  unfoldable pub clock : Handler B ℕ
  clock w = (next w.now, w)

  -- `uuid.NewString()`
  unfoldable pub new_uuid : Env → Handler B Text
  new_uuid env w = (next (env.uuid_of w.uuids_used), record w { uuids_used = suc w.uuids_used })

  -- A query: `none` is an error of the driver.
  unfoldable pub query : {A : Type 0} → (Database → A) → Handler B (Option A)
  query f w = (next (if next_fault w.faults then none else some (f w.db)), used w)

  -- A statement that changes the database and reports the number of rows that it changed; `none`
  -- is an error, of the driver or of a constraint.
  abbrev pub written : Option (Database × ℕ) → World → Outcome B (Option ℕ) × World
  written none w = (next none, w)
  written (some (db', n)) w = (next (some n), record w { db = db' })

  unfoldable pub exec : (Database → Option (Database × ℕ)) → Handler B (Option ℕ)
  exec f w = written (if next_fault w.faults then none else f w.db) (used w)

  -- `Rows.Scan` on each row in turn; the handler stops at the first that fails.
  unfoldable pub scan_all : {A : Type 0} → List A → Response B → Handler B (List A)
  scan_all [] r w = (next [], w)
  scan_all (x ∷ xs) r w =
      let rest = scan_all xs r (used w) in
      if next_fault w.faults then (stop r, used w) else after rest (λ ys v. (next (x ∷ ys), v))

  -- `Rows.Scan` on each row in turn; rows that fail are left out.
  unfoldable pub scan_some : {A : Type 0} → List A → Handler B (List A)
  scan_some [] w = (next [], w)
  scan_some (x ∷ xs) w =
      let f = next_fault w.faults in
      after (scan_some xs (used w)) (λ ys v. (next (if f then ys else x ∷ ys), v))

  -- The deferred `tx.Rollback` of a return inside a transaction: back to the database that
  -- `db.BeginTx` found. There is one connection, so nothing else runs meanwhile.
  unfoldable pub or_rollback : {A : Type 0} → Database → Option A → Response B → Handler B A
  or_rollback saved none r w = (stop r, record w { db = saved })
  or_rollback saved (some a) r w = (next a, w)

  -- A query whose error the handler answers with `r`.
  unfoldable pub fetch : {A : Type 0} → (Database → A) → Response B → Handler B A
  fetch f r = query f >>= λ o. or_reply o r

  -- A statement whose error the handler answers with `r`; it gives the number of rows changed.
  unfoldable pub execute : (Database → Option (Database × ℕ)) → Response B → Handler B ℕ
  execute f r = exec f >>= λ o. or_reply o r

  -- `db.BeginTx`: the database to return to.
  unfoldable pub begin : Response B → Handler B Database
  begin r = fetch (λ db. db) r

  -- A statement inside a transaction.
  unfoldable pub transact : Database → (Database → Option (Database × ℕ)) → Response B → Handler B ℕ
  transact saved f r = exec f >>= λ o. or_rollback saved o r

  -- `tx.Commit`
  unfoldable pub commit : Database → Response B → Handler B (Unit {0})
  commit saved r = query (λ db. tt) >>= λ o. or_rollback saved o r
