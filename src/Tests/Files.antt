-- ===== src/Tests/Files.antt =====
-- Runs of the requests on files.
use my_personal_cloud.Prelude.{
  true, ◌≡◌, refl, [], ◌∷◌, Option, some, codes, arith, find, filter, ◌==◌,
}
use my_personal_cloud.World.{
  Response, stop, bare, error, ◌>>=◌, or_reply, fetch, query, execute, exec, scan_some, reply, pure,
}
use my_personal_cloud.Auth.{authenticated}
use my_personal_cloud.GoPath.{render, join}
use my_personal_cloud.GoPath.Canonical.{IsPlain}
use my_personal_cloud.Files.Names.Paths.{IsFolderPath}
use my_personal_cloud.Files.Names.Sanitize.{IsFileName}
use my_personal_cloud.Storage.{delete_file, attempt, change_disk}
use my_personal_cloud.Files.Api.{Body, PatchBody, is_file, trashed_by, delete_files}
use my_personal_cloud.Files.Content.{download_handler}
use my_personal_cloud.Files.Changes.{
  delete_handler, restore_handler, empty_trash_handler, delete_all,
}
use my_personal_cloud.Files.Changes.Contents.{calm, restored_file_has_no_contents}
use my_personal_cloud.Files.Changes.Emptying.{empty_trash-Emptied}
use my_personal_cloud.Files.Service.{serve, patch_file, delete_folder}
use my_personal_cloud.Files.Service.Isolation.{OthersKept, serve-OthersKept}
use my_personal_cloud.Files.Service.Refusals.{serve_answers}
use my_personal_cloud.Files.Service.WellFormed.{WellFormed, serve-WellFormed}
use my_personal_cloud.Tests.Data.{bob, alice, env, notes, tables, disk, world}

serve-OthersKept_example :
    OthersKept env 1 (world []) (serve env (some alice) (delete_folder (codes "d1")) (world [])).1
serve-OthersKept_example = serve-OthersKept env alice (delete_folder (codes "d1")) (world [])

tables-WellFormed : WellFormed tables
unfolding render join
tables-WellFormed = record {
  files = (notes_good, (((plain, omega arith), ([], refl, tt)), (notes_good, tt)));
  folders = ((((cc, cc, cc, omega arith), omega arith), ([], refl, tt)), tt);
}
  where
    plain : IsPlain (codes "secret")
    plain = (cc, cc, cc, omega arith)

    notes_good : IsFileName (codes "notes") × IsFolderPath (codes "/docs")
    notes_good = (
      ((cc, cc, cc, omega arith), omega arith),
      (codes "docs" ∷ [], refl, ((cc, cc, cc, omega arith), tt)),
    )

abbrev moved_away : Option PatchBody
moved_away = some (record { name = some (codes "../b"); parent_path = some (codes "x/..//y") })

serve-WellFormed_example :
    WellFormed (serve env (some alice) (patch_file (codes "f1") moved_away) (world [])).1.db
serve-WellFormed_example =
    serve-WellFormed env alice (patch_file (codes "f1") moved_away) (world []) refl
      tables-WellFormed

trash_emptied : (empty_trash_handler env (some alice) (world [])).0 ≡ stop (bare 204)
unfolding empty_trash_handler authenticated or_reply fetch query execute exec scan_some delete_all
    delete_files delete_file attempt change_disk reply pure ◌>>=◌
trash_emptied = refl

empty_trash-Emptied_example :
    filter (trashed_by 1) (empty_trash_handler env (some alice) (world [])).1.db.files ≡ []
empty_trash-Emptied_example =
    empty_trash-Emptied env alice (world []) (bare 204) trash_emptied (omega arith)

notes_found : find (is_file (codes "f1") 1) tables.files ≡ some notes
unfolding ◌==◌
notes_found = refl

restored_file_has_no_contents_example :
    let (deleted, w1) = delete_handler env (some alice) (codes "f1") (calm tables disk 0 200) in
    let (restored, w2) = restore_handler (some alice) (codes "f1") w1 in
    (deleted ≡ stop (bare 204))
    × (restored ≡ stop (bare 204))
    × ((download_handler env (some alice) (codes "f1") [] w2).0 ≡ stop (error 500 "open failed"))
restored_file_has_no_contents_example =
    restored_file_has_no_contents env alice (codes "f1") [] 0 200 tables disk notes notes_found

serve_answers_example :
    (answer : Response Body) × ((serve env
        (some bob)
        (delete_folder (codes "d1"))
        (world (true ∷ []))).0
      ≡ stop answer)
serve_answers_example =
    serve_answers env (some bob) (delete_folder (codes "d1")) (world (true ∷ []))
