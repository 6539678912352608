-- ===== src/Tests/Data.antt =====
-- Tables, a disk and a configuration for the tests.
use my_personal_cloud.Prelude.{◌+◌, true, false, List, [], ◌∷◌, none, some, codes, Bool}
use my_personal_cloud.World.{Database, Disk, Env, World, UserRow, FileRow, FolderRow, ShareRow}
use my_personal_cloud.Auth.{User}

abbrev pub alice : User
alice = record { id = 1; username = codes "alice" }

abbrev pub bob : User
bob = record { id = 2; username = codes "bob" }

abbrev pub env : Env
env = record {
  storage_root = codes "/data";
  max_upload_bytes = 1000;
  uuid_of = λ n. (100 + n) ∷ [];
  token_of = λ n. (200 + n) ∷ [];
  detect_content_type = λ bytes. codes "text/plain";
}

abbrev user_row : User → UserRow
user_row u = record { id = u.id; username = u.username; password_hash = codes "h" }

abbrev pub notes : FileRow
notes = record {
  id = codes "f1";
  user_id = 1;
  name = codes "notes";
  parent_path = codes "/docs";
  storage_path = codes "1/x";
  mime_type = codes "text/plain";
  size_bytes = 2;
  is_image = false;
  created_at = 5;
  deleted_at = none;
}

abbrev pub secret : FileRow
secret = record notes {
  id = codes "f2";
  user_id = 2;
  name = codes "secret";
  parent_path = codes "/";
  storage_path = codes "2/y";
}

abbrev pub old : FileRow
old = record notes { id = codes "f3"; storage_path = codes "1/z"; deleted_at = some 6 }

abbrev pub docs : FolderRow
docs = record {
  id = codes "d1";
  user_id = 1;
  name = codes "docs";
  parent_path = codes "/";
  created_at = 4;
}

abbrev pub docs_link : ShareRow
docs_link = record {
  id = codes "s1";
  user_id = 1;
  file_id = none;
  folder_id = some (codes "d1");
  token = codes "t1";
  expires_at = 4000;
  max_views = 3;
  current_views = 1;
  is_active = true;
  created_at = 100;
}

abbrev pub tables : Database
tables = record {
  users = user_row alice ∷ user_row bob ∷ [];
  files = notes ∷ secret ∷ old ∷ [];
  folders = docs ∷ [];
  share_links = docs_link ∷ [];
}

abbrev pub disk : Disk
disk = (codes "/data/1/x", 1 ∷ 2 ∷ []) ∷ (codes "/data/2/y", 3 ∷ 4 ∷ []) ∷ []

-- The world in which the calls fail as listed.
abbrev pub world : List Bool → World
world faults = record { db = tables; disk = disk; faults = faults; uuids_used = 0; now = 200 }
