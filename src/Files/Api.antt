-- ===== src/Files/Api.antt =====
-- The views, request bodies and reply bodies of internal/files/files.go, and the conditions and
-- statements of its SQL.
use my_personal_cloud.Prelude.{
  ℕ, ◌+◌, ◌++◌, ◌==◌, Bool, true, false, not, ◌&&◌, ◌||◌, List, [], ◌∷◌, Option, none, some, Text,
  String, codes, nat_eq, ltb, leb, any, if◌then◌else◌, byte_length,
}
use my_personal_cloud.Decimal.{atoi}
use my_personal_cloud.Sql.{update, delete, count, like, substr}
use my_personal_cloud.World.{FileRow, FolderRow, Database}

pub record File : Type 0 where
  pub id : Text
  pub name : Text
  pub parent_path : Text
  pub mime_type : Text
  pub size_bytes : ℕ
  pub is_image : Bool
  pub created_at : ℕ
  pub deleted_at : Option ℕ

pub record Folder : Type 0 where
  pub id : Text
  pub name : Text
  pub parent_path : Text
  pub created_at : ℕ

-- The objects that the handlers send; `conflict` has the message and the existing identifier.
pub data Body : Type 0 where
  listing : Text → List Folder → List File → ℕ → ℕ → ℕ → Body
  found : List File → List Folder → ℕ → ℕ → Body
  trash : List File → ℕ → ℕ → ℕ → Body
  file : File → Body
  folder : Folder → Body
  conflict : String → Text → Body

-- A parsed multipart form with the size of the request's body; `file` has the name and the
-- contents of the field "file".
pub record UploadForm : Type 0 where
  pub body_bytes : ℕ
  pub path : Text
  pub file : Option (Text × List ℕ)

pub record PatchBody : Type 0 where
  pub name : Option Text
  pub parent_path : Option Text

pub record FolderBody : Type 0 where
  pub name : Text
  pub parent_path : Text

-- Where a query does not select `deleted_at`, the view has none.
abbrev pub file_view : FileRow → File
file_view r = record {
  id = r.id;
  name = r.name;
  parent_path = r.parent_path;
  mime_type = r.mime_type;
  size_bytes = r.size_bytes;
  is_image = r.is_image;
  created_at = r.created_at;
  deleted_at = none;
}

abbrev pub trash_view : FileRow → File
trash_view r = record {
  id = r.id;
  name = r.name;
  parent_path = r.parent_path;
  mime_type = r.mime_type;
  size_bytes = r.size_bytes;
  is_image = r.is_image;
  created_at = r.created_at;
  deleted_at = r.deleted_at;
}

abbrev pub folder_view : FolderRow → Folder
folder_view r = record {
  id = r.id;
  name = r.name;
  parent_path = r.parent_path;
  created_at = r.created_at;
}

-- The limit of `parsePagination`, from the query parameter or "" where it is absent.
abbrev pub limit_of : Option (Bool × ℕ) → ℕ
limit_of (some (false, n)) = if ltb 0 n && leb n 200 then n else 50
limit_of _ = 50

abbrev pub offset_of : Option (Bool × ℕ) → ℕ
offset_of (some (false, n)) = n
offset_of _ = 0

unfoldable pub parse_pagination : Text → Text → ℕ × ℕ
parse_pagination limit offset = (limit_of (atoi limit), offset_of (atoi offset))

-- `deleted_at IS NULL`
abbrev pub is_active : FileRow → Bool
is_active r = elim (r.deleted_at) [ none ↦ true | some t ↦ false ]

abbrev pub owned_by : ℕ → FileRow → Bool
owned_by u r = nat_eq r.user_id u

abbrev pub folder_owned_by : ℕ → FolderRow → Bool
folder_owned_by u r = nat_eq r.user_id u

-- `id = ? AND user_id = ?`
abbrev pub is_file : Text → ℕ → FileRow → Bool
is_file id u r = r.id == id && owned_by u r

abbrev pub is_folder : Text → ℕ → FolderRow → Bool
is_folder id u r = r.id == id && folder_owned_by u r

-- `user_id = ? AND parent_path = ? AND deleted_at IS NULL`
abbrev pub active_in : ℕ → Text → FileRow → Bool
active_in u parent r = owned_by u r && r.parent_path == parent && is_active r

-- `user_id = ? AND parent_path = ? AND name = ? AND deleted_at IS NULL`
abbrev pub active_named : ℕ → Text → Text → FileRow → Bool
active_named u parent name r =
    owned_by u r && r.parent_path == parent && r.name == name && is_active r

abbrev pub folder_named : ℕ → Text → Text → FolderRow → Bool
folder_named u parent name r = folder_owned_by u r && r.parent_path == parent && r.name == name

-- `user_id = ? AND deleted_at IS NOT NULL`
abbrev pub trashed_by : ℕ → FileRow → Bool
trashed_by u r = owned_by u r && not (is_active r)

-- `parent_path = full OR parent_path LIKE full || '/%'`
unfoldable pub is_inside : Text → Text → Bool
is_inside full parent = parent == full || like (full ++ codes "/%") parent

-- `newFull || SUBSTR(parent_path, oldLen + 1)`, where `oldLen` is Go's `len(oldFull)`.
unfoldable pub moved_path : Text → Text → Text → Text
moved_path old_full new_full parent = new_full ++ substr parent (byte_length old_full + 1)

-- `INSERT INTO files`: refused by the primary key, and by the foreign key to `users`.
unfoldable pub insert_file : FileRow → Database → Option (Database × ℕ)
insert_file r db =
    if any (λ f. f.id == r.id) db.files || not (any (λ u. nat_eq u.id r.user_id) db.users)
    then none
    else some (record db { files = db.files ++ r ∷ [] }, 1)

unfoldable pub insert_folder : FolderRow → Database → Option (Database × ℕ)
insert_folder r db =
    if any (λ f. f.id == r.id) db.folders || not (any (λ u. nat_eq u.id r.user_id) db.users)
    then none
    else some (record db { folders = db.folders ++ r ∷ [] }, 1)

unfoldable pub update_files :
    (FileRow → Bool) → (FileRow → FileRow) → Database → Option (Database × ℕ)
update_files p f db = some (record db { files = update p f db.files }, count p db.files)

unfoldable pub update_folders :
    (FolderRow → Bool) → (FolderRow → FolderRow) → Database → Option (Database × ℕ)
update_folders p f db = some (record db { folders = update p f db.folders }, count p db.folders)

abbrev pub points_to : Text → Option Text → Bool
points_to id none = false
points_to id (some other) = other == id

-- `DELETE FROM files`; the foreign key of `share_links` says ON DELETE SET NULL.
unfoldable pub delete_files : (FileRow → Bool) → Database → Option (Database × ℕ)
delete_files p db = some (
  record db {
    files = delete p db.files;
    share_links =
        update (λ s. any (λ r. p r && points_to r.id s.file_id) db.files)
          (λ s. record s { file_id = none }) db.share_links;
  },
  count p db.files,
)

unfoldable pub delete_folders : (FolderRow → Bool) → Database → Option (Database × ℕ)
delete_folders p db = some (
  record db {
    folders = delete p db.folders;
    share_links =
        update (λ s. any (λ r. p r && points_to r.id s.folder_id) db.folders)
          (λ s. record s { folder_id = none }) db.share_links;
  },
  count p db.folders,
)
