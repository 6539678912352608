-- ===== src/Tests/Folders.antt =====
-- Runs of the requests on folders.
use my_personal_cloud.Prelude.{
  ◌≡◌, refl, ◌++◌, ◌⊎◌, Bool, true, false, [], ◌∷◌, List, Option, none, some, Text, codes, arith,
  ◌==◌,
}
use my_personal_cloud.GoPath.{slash}
use my_personal_cloud.Sql.{like, lower, some_suffix}
use my_personal_cloud.Sql.Like.{SameFolded}
use my_personal_cloud.Files.Api.{PatchBody, is_inside, moved_path}
use my_personal_cloud.Files.Folders.Moves.{
  folder_contents_move, only_folder_contents_move, wildcard_moves_others,
}

folder_contents_move_example :
    (is_inside (codes "/docs") (codes "/docs") ≡ true)
    × (moved_path (codes "/docs") (codes "/x/y") (codes "/docs") ≡ codes "/x/y")
    × (is_inside (codes "/docs") (codes "/docs/a") ≡ true)
    × (moved_path (codes "/docs") (codes "/x/y") (codes "/docs/a") ≡ codes "/x/y/a")
folder_contents_move_example =
    folder_contents_move (codes "/docs") (codes "/x/y") (codes "a") (omega arith) (omega arith)

docs_inside : is_inside (codes "/docs") (codes "/Docs/a") ≡ true
unfolding is_inside like lower some_suffix ◌==◌
docs_inside = refl

only_folder_contents_move_example :
    (start rest : Text) × (codes "/Docs/a" ≡ start ++ rest)
    × SameFolded start (codes "/docs")
    × ((rest ≡ []) ⊎ ((tail : Text) × (rest ≡ slash ∷ tail)))
    × (moved_path (codes "/docs") (codes "/x") (codes "/Docs/a") ≡ codes "/x" ++ rest)
only_folder_contents_move_example =
    only_folder_contents_move (codes "/docs") (codes "/x") (codes "/Docs/a") (omega arith)
      (omega arith) docs_inside

wildcard_moves_others_example :
    (is_inside (codes "/a_b") (codes "/axb/c") ≡ true)
    × (moved_path (codes "/a_b") (codes "/n") (codes "/axb/c") ≡ codes "/n/c")
wildcard_moves_others_example =
    wildcard_moves_others (codes "/a") (codes "b") (codes "/n") (codes "c") b'x' (omega arith)
      (omega arith) (omega arith) (omega arith)

abbrev renamed : Option PatchBody
renamed = some (record { name = some (codes "b"); parent_path = none })

-- The lookup, the beginning of the transaction and its first statement succeed, the second fails.
abbrev second_fails : List Bool
second_fails = false ∷ false ∷ false ∷ true ∷ []

-- The first two queries, the scan of one row, the beginning and the first statement succeed, the
-- second statement fails.
abbrev removal_fails : List Bool
removal_fails = false ∷ false ∷ false ∷ false ∷ false ∷ false ∷ true ∷ []
