-- ===== src/Shares.antt =====
-- The share links of internal/shares/shares.go: views, statements, creation, listing, revocation.
pub mod Access
pub mod Links
pub mod Revocation
pub mod Service
use my_personal_cloud.Prelude.{
  ℕ, suc, ◌+◌, ◌*◌, ◌++◌, ◌==◌, Bool, true, false, not, ◌&&◌, ◌||◌, List, [], ◌∷◌, map, Option,
  none, some, Text, String, codes, nat_eq, ltb, leb, any, find, filter, length, if◌then◌else◌,
}
use my_personal_cloud.Prelude.Int.{ℤ, pos, negsuc}
use my_personal_cloud.Sql.{update, count, order_by}
use my_personal_cloud.World.{
  Env, Database, FileRow, FolderRow, ShareRow, World, Outcome, next, Handler, Endpoint, bare, error,
  json, ◌>>=◌, ◌>>◌, pure, reply, require, or_reply, clock, new_uuid, query, exec, execute, fetch,
  scan_all,
}
use my_personal_cloud.Auth.{User, authenticated}
use my_personal_cloud.Storage.{attempt}
use my_personal_cloud.Files.Api.{is_file, is_folder}

pub record ShareLink : Type 0 where
  pub id : Text
  pub user_id : ℕ
  pub file_id : Option Text
  pub folder_id : Option Text
  pub token : Text
  pub share_url : Text
  pub expires_at : ℕ
  pub max_views : ℕ
  pub current_views : ℕ
  pub is_active : Bool
  pub created_at : ℕ
  pub name : Text

pub record PublicFile : Type 0 where
  pub id : Text
  pub name : Text
  pub mime_type : Text
  pub size_bytes : ℕ
  pub is_image : Bool

pub record PublicFolder : Type 0 where
  pub id : Text
  pub name : Text

pub data ShareBody : Type 0 where
  share : ShareLink → ShareBody
  shares : List ShareLink → ShareBody
  shared_file : PublicFile → Text → ShareBody
  shared_folder : Text → List PublicFolder → List PublicFile → Text → ShareBody

-- The decoded body of POST /api/shares.
pub record CreateBody : Type 0 where
  pub file_id : Option Text
  pub folder_id : Option Text
  pub expires_in_hours : ℤ
  pub max_views : ℤ

abbrev pub hour : ℕ
hour = 3600

-- Between one hour and seven days.
unfoldable pub clamp_hours : ℤ → ℕ
clamp_hours (negsuc n) = 1
clamp_hours (pos n) = if nat_eq n 0 then 1 else if ltb 168 n then 168 else n

unfoldable pub clamp_views : ℤ → ℕ
clamp_views (negsuc n) = 0
clamp_views (pos n) = n

abbrev pub share_url_of : Text → Text
share_url_of token = codes "/share/" ++ token

abbrev pub file_exists : Option Text → Database → Bool
file_exists none db = true
file_exists (some id) db = any (λ r. r.id == id) db.files

abbrev pub folder_exists : Option Text → Database → Bool
folder_exists none db = true
folder_exists (some id) db = any (λ r. r.id == id) db.folders

-- `INSERT INTO share_links`: refused by the primary key, the unique token and the foreign keys.
unfoldable pub insert_share : ShareRow → Database → Option (Database × ℕ)
insert_share r db =
    if any (λ s. s.id == r.id || s.token == r.token) db.share_links
      || not (any (λ u. nat_eq u.id r.user_id) db.users)
      || not (file_exists r.file_id db)
      || not (folder_exists r.folder_id db)
    then none
    else some (record db { share_links = db.share_links ++ r ∷ [] }, 1)

unfoldable pub update_shares :
    (ShareRow → Bool) → (ShareRow → ShareRow) → Database → Option (Database × ℕ)
update_shares p f db =
    some (record db { share_links = update p f db.share_links }, count p db.share_links)

-- `generateToken`; reading random bytes may fail.
unfoldable pub generate_token : {B : Type 0} → Env → Handler B Text
generate_token env = do done ← attempt; require done (error 400 "generate token"); drawn
  where
    drawn : {B : Type 0} → Handler B Text
    drawn w = (next (env.token_of w.uuids_used), record w { uuids_used = suc w.uuids_used })

-- Exactly one of the two targets is given.
unfoldable pub one_target : Option Text → Option Text → Handler ShareBody (Unit {0})
one_target none none = reply (error 400 "provide file_id or folder_id")
one_target (some f) (some g) = reply (error 400 "provide only one of file_id or folder_id")
one_target (some f) none = pure tt
one_target none (some g) = pure tt

-- The file or folder is one of the user's.
unfoldable pub check_file : ℕ → Option Text → Handler ShareBody (Unit {0})
check_file user_id none = pure tt
check_file user_id (some id) = do
  n ← fetch (λ db. count (is_file id user_id) db.files) (error 400 "check file")
  require (not (nat_eq n 0)) (error 400 "file not found")

unfoldable pub check_folder : ℕ → Option Text → Handler ShareBody (Unit {0})
check_folder user_id none = pure tt
check_folder user_id (some id) = do
  n ← fetch (λ db. count (is_folder id user_id) db.folders) (error 400 "check folder")
  require (not (nat_eq n 0)) (error 400 "folder not found")

abbrev pub link_of : ShareRow → Text → ShareLink
link_of r name = record {
  id = r.id;
  user_id = r.user_id;
  file_id = r.file_id;
  folder_id = r.folder_id;
  token = r.token;
  share_url = share_url_of r.token;
  expires_at = r.expires_at;
  max_views = r.max_views;
  current_views = r.current_views;
  is_active = r.is_active;
  created_at = r.created_at;
  name = name;
}

-- `CreateShare`. The row gets CURRENT_TIMESTAMP, read when it is inserted, and the answer the time
-- read before. Its only caller answers each of its errors with 400 and the error's text; the
-- text of a driver's error is left out behind the part that the code adds.
unfoldable pub create_share :
    Env → ℕ → Option Text → Option Text → ℤ → ℤ → Handler ShareBody ShareLink
create_share env user_id file_id folder_id hours views = do
  one_target file_id folder_id
  token ← generate_token env
  id ← new_uuid env
  now ← clock
  check_file user_id file_id
  check_folder user_id folder_id
  inserted ← clock
  let row : ShareRow = record {
    id = id;
    user_id = user_id;
    file_id = file_id;
    folder_id = folder_id;
    token = token;
    expires_at = now + clamp_hours hours * hour;
    max_views = clamp_views views;
    current_views = 0;
    is_active = true;
    created_at = inserted;
  }
  execute (insert_share row) (error 400 "insert share")
  pure (link_of (record row { created_at = now }) [])

-- The handler replaces a number of hours that is not positive by 1 before `CreateShare` does.
abbrev pub at_least_one : ℤ → ℤ
at_least_one (negsuc n) = pos 1
at_least_one (pos n) = if nat_eq n 0 then pos 1 else pos n

unfoldable pub create_handler : Env → Option User → Option CreateBody → Endpoint ShareBody
create_handler env user body = do
  u ← authenticated user
  b ← or_reply body (error 400 "invalid JSON")
  link ← create_share env u.id b.file_id b.folder_id (at_least_one b.expires_in_hours) b.max_views
  reply (json 201 (share link))

abbrev pub name_or : Option Text → Text → Text
name_or none other = other
name_or (some name) other = name

abbrev pub file_name_of : Option Text → Database → Option Text
file_name_of none db = none
file_name_of (some id) db = elim (find (λ r. r.id == id) db.files) [
  | none ↦ none
  | some r ↦ some r.name
]

abbrev pub folder_name_of : Option Text → Database → Option Text
folder_name_of none db = none
folder_name_of (some id) db = elim (find (λ r. r.id == id) db.folders) [
  | none ↦ none
  | some r ↦ some r.name
]

-- A row of the query of `ListShares`, with the name of what it points to.
abbrev pub listed : Database → ShareRow → ShareLink
listed db s =
    link_of s (name_or (file_name_of s.file_id db) (name_or (folder_name_of s.folder_id db) []))

unfoldable pub list_shares : ℕ → Handler ShareBody (List ShareLink)
list_shares user_id = do
  rows ←
      fetch
        (λ db. map (listed db) (
          order_by (λ a b. ltb b.created_at a.created_at)
            (filter (λ s. nat_eq s.user_id user_id) db.share_links)))
        (error 500 "list shares failed")
  scan_all rows (error 500 "list shares failed")

unfoldable pub list_handler : Option User → Endpoint ShareBody
list_handler user = do
  u ← authenticated user
  links ← list_shares u.id
  reply (json 200 (shares links))

abbrev pub revoked : ShareRow → ShareRow
revoked s = record s { is_active = false }

abbrev pub is_share : Text → ℕ → ShareRow → Bool
is_share id user_id s = s.id == id && nat_eq s.user_id user_id

-- `RevokeShare` and its handler.
unfoldable pub revoke_handler : Option User → Text → Endpoint ShareBody
revoke_handler user id = do
  u ← authenticated user
  n ← execute (update_shares (is_share id u.id) revoked) (error 500 "revoke failed")
  require (not (nat_eq n 0)) (error 404 "share not found")
  reply (bare 204)
