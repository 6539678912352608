-- ===== src/Tests/Names.antt =====
-- Runs of the helpers on names and paths, and of the containment of storage paths.
use my_personal_cloud.Prelude.{◌≡◌, refl, ◌⊎◌, [], ◌∷◌, codes, arith, ◌==◌, has_prefix}
use my_personal_cloud.GoPath.{
  join_path, clean, step_up, base, trim_slashes, replace_all, trim_space, trim_left, trim_right,
  is_space, render, join, elements, split, resolve, step,
}
use my_personal_cloud.GoPath.Canonical.{IsPlain}
use my_personal_cloud.Storage.{abs}
use my_personal_cloud.Storage.Containment.{IsProperRoot, IsWithin, abs-IsWithin}
use my_personal_cloud.Files.Names.{normalize_parent, sanitize_filename}
use my_personal_cloud.Files.Names.Paths.{IsFolderPath, normalize_parent-IsFolderPath}
use my_personal_cloud.Files.Names.Sanitize.{IsFileName, sanitize_filename-IsFileName}

sanitize_filename-IsFileName_example :
    (sanitize_filename (codes "..\\x/ a.txt ") ≡ [])
    ⊎ IsFileName (sanitize_filename (codes "..\\x/ a.txt "))
sanitize_filename-IsFileName_example = sanitize_filename-IsFileName (codes "..\\x/ a.txt ")

normalize_parent-IsFolderPath_example : IsFolderPath (normalize_parent (codes "a//../../b/"))
normalize_parent-IsFolderPath_example = normalize_parent-IsFolderPath (codes "a//../../b/")

docs-IsPlain : IsPlain (codes "docs")
docs-IsPlain = (cc, cc, cc, omega arith)

docs-IsFolderPath : IsFolderPath (codes "/docs")
unfolding render join
docs-IsFolderPath = (codes "docs" ∷ [], refl, (docs-IsPlain, tt))

pub root-IsProperRoot : IsProperRoot (codes "/data")
unfolding elements split resolve step ◌==◌
root-IsProperRoot = ([], codes "data", refl, (cc, cc, cc, omega arith))

abs-IsWithin_example : IsWithin (codes "/data") (abs (codes "/data") (codes "../etc/passwd"))
abs-IsWithin_example = abs-IsWithin (codes "/data") (codes "../etc/passwd") root-IsProperRoot

-- A path that leads out of the root is led back in.
abs_run : abs (codes "/data") (codes "../etc/passwd") ≡ codes "/data/_invalid"
unfolding abs join_path clean render join elements split resolve step step_up has_prefix ◌==◌
abs_run = refl

normalize_run : normalize_parent (codes "a//../../b/") ≡ codes "/b"
unfolding normalize_parent clean render join elements split resolve step step_up has_prefix ◌==◌
normalize_run = refl

sanitize_run : sanitize_filename (codes "..\\x/ a.txt ") ≡ codes "a.txt"
unfolding sanitize_filename base trim_slashes split replace_all trim_space trim_left trim_right
    is_space ◌==◌
sanitize_run = refl
