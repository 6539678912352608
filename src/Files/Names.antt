-- ===== src/Files/Names.antt =====
-- The helpers on names and paths at the end of internal/files/files.go.
pub mod Paths
pub mod Sanitize
use my_personal_cloud.Prelude.{
  ◌++◌, ◌==◌, ◌||◌, [], ◌∷◌, Text, codes, has_prefix, if◌then◌else◌, ℕ, Option, none, some, ltb,
  leb, ◌&&◌,
}
use my_personal_cloud.GoPath.{slash, dot, dots, clean, base, replace_all, trim_space}

abbrev pub root_path : Text
root_path = slash ∷ []

unfoldable pub folder_full_path : Text → Text → Text
folder_full_path parent name = if parent == root_path then slash ∷ name else parent ++ slash ∷ name

unfoldable pub normalize_parent : Text → Text
normalize_parent p =
    if p == []
    then root_path
    else let q = if has_prefix p root_path then p else slash ∷ p in
      let cleaned = clean q in if cleaned == dot then root_path else cleaned

abbrev pub backslash : ℕ
backslash = 92

unfoldable pub sanitize_filename : Text → Text
sanitize_filename name =
    let trimmed = trim_space (base (replace_all backslash slash name)) in
    if trimmed == dot || trimmed == dots || trimmed == root_path then [] else trimmed
