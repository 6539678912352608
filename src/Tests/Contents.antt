-- ===== src/Tests/Contents.antt =====
-- Runs of an upload and of the download of its file.
use my_personal_cloud.Prelude.{
  ◌≡◌, refl, ◌++◌, false, ℕ, ◌+◌, [], ◌∷◌, none, some, codes, arith, ◌==◌, List, has_prefix,
}
use my_personal_cloud.Sql.{lower}
use my_personal_cloud.World.{
  World, stop, json, stream, ◌>>=◌, or_reply, require, query, exec, reply, pure, clock, new_uuid,
}
use my_personal_cloud.Auth.{authenticated}
use my_personal_cloud.Decimal.{decimal, digits_from}
use my_personal_cloud.GoPath.{
  join_path, clean, render, join, elements, split, resolve, step, step_up, base, replace_all,
  trim_space, trim_left, trim_right, trim_slashes, is_space,
}
use my_personal_cloud.GoPath.Canonical.{IsPlain}
use my_personal_cloud.Storage.{
  save, attempt, change_disk, rel_path, strip_common, write_file, remove_file,
}
use my_personal_cloud.Files.Names.{normalize_parent, sanitize_filename}
use my_personal_cloud.Files.Api.{File, UploadForm, file, insert_file}
use my_personal_cloud.Files.Content.{
  upload_handler, download_handler, sniff, refuse_duplicate, finish_upload, attachment,
  is_image_type,
}
use my_personal_cloud.Files.Content.Roundtrip.{uploaded_file_downloads}
use my_personal_cloud.Tests.Data.{alice, env, notes, tables, disk, world}
use my_personal_cloud.Tests.Names.{root-IsProperRoot}

generated-IsPlain : (n : ℕ) → IsPlain ((100 + n) ∷ [])
generated-IsPlain n = (cc, ground arith, cc, omega arith)

abbrev bytes : List ℕ
bytes = 7 ∷ 8 ∷ 9 ∷ []

abbrev form : UploadForm
form = record { body_bytes = 300; path = codes "docs/"; file = some (codes "b.txt", bytes) }

abbrev b_txt : File
b_txt = record {
  id = 101 ∷ [];
  name = codes "b.txt";
  parent_path = codes "/docs";
  mime_type = codes "text/plain";
  size_bytes = 3;
  is_image = false;
  created_at = 200;
  deleted_at = none;
}

abbrev after_upload : World
after_upload = record (world []) {
  db = record tables {
    files =
        tables.files
        ++ record notes {
          id = 101 ∷ [];
          name = codes "b.txt";
          storage_path = codes "1/" ++ 100 ∷ [];
          size_bytes = 3;
          created_at = 200;
        }
          ∷ [];
  };
  disk = (codes "/data/1/" ++ 100 ∷ [], bytes) ∷ disk;
  uuids_used = 2;
}

upload_run :
    upload_handler env (some alice) (some form) (world [])
    ≡ (stop (json 201 (file b_txt)), after_upload)
unfolding upload_handler authenticated or_reply require query exec reply pure clock new_uuid ◌>>=◌
    decimal digits_from join_path clean render join elements split resolve step step_up base
    replace_all trim_space trim_left trim_right trim_slashes is_space save attempt change_disk
    rel_path strip_common write_file remove_file normalize_parent sanitize_filename insert_file
    sniff refuse_duplicate finish_upload is_image_type has_prefix lower ◌==◌
upload_run = refl

uploaded_file_downloads_example :
    (codes "b.txt" ≡ sanitize_filename (codes "b.txt"))
    × (codes "/docs" ≡ normalize_parent (codes "docs/"))
    × ((download_handler env (some alice) (101 ∷ []) [] after_upload).0
        ≡ stop (stream (codes "text/plain") 3 (some (attachment (codes "b.txt"))) bytes))
unfolding ◌==◌
uploaded_file_downloads_example =
    uploaded_file_downloads env alice form (codes "b.txt", bytes) (world []) after_upload b_txt []
      root-IsProperRoot generated-IsPlain refl upload_run
