-- ===== src/GoPath.antt =====
-- What the program uses of Go's `path`, `path/filepath` (with `/` as separator) and `strings`:
-- Clean, Join, Base, Rel, TrimSpace, ReplaceAll of one character, and TrimRight of "/".
-- A path is cut into its elements at the slashes, and the elements are resolved on a stack.
pub mod Split
pub mod Canonical
use my_personal_cloud.Prelude.{
  ℕ, ◌++◌, ◌==◌, Bool, true, false, ◌&&◌, ◌||◌, List, [], ◌∷◌, reverse, Option, none, some, Text,
  codes, has_prefix, if◌then◌else◌, nat_eq, leb, map,
}

abbrev pub slash : ℕ
slash = 47

abbrev pub dot : Text
dot = 46 ∷ []

abbrev pub dots : Text
dots = 46 ∷ 46 ∷ []

-- A character that goes before the first element.
abbrev pub extend : ℕ → List Text → List Text
extend c [] = (c ∷ []) ∷ []
extend c (w ∷ ws) = (c ∷ w) ∷ ws

-- The elements between the slashes, empty ones included.
unfoldable pub split : Text → List Text
split [] = [] ∷ []
split (c ∷ s) = let ws = split s in if nat_eq c slash then [] ∷ ws else extend c ws

unfoldable pub join : List Text → Text
join [] = []
join (w ∷ []) = w
join (w ∷ v ∷ ws) = w ++ slash ∷ join (v ∷ ws)

-- `..` takes the last element back; above the root it is dropped, and where a relative path
-- begins it is kept. The stack has the last element at its head.
unfoldable pub step_up : Bool → List Text → List Text
step_up true [] = []
step_up false [] = dots ∷ []
step_up rooted (w ∷ stack) = if w == dots then dots ∷ w ∷ stack else stack

unfoldable pub step : Bool → List Text → Text → List Text
step rooted stack w =
    if w == [] || w == dot then stack else if w == dots then step_up rooted stack else w ∷ stack

unfoldable pub resolve : Bool → List Text → List Text → List Text
resolve rooted stack [] = stack
resolve rooted stack (w ∷ ws) = resolve rooted (step rooted stack w) ws

unfoldable pub render : Bool → List Text → Text
render true ws = slash ∷ join ws
render false [] = dot
render false (w ∷ ws) = join (w ∷ ws)

abbrev pub is_rooted : Text → Bool
is_rooted [] = false
is_rooted (c ∷ s) = nat_eq c slash

-- The elements that are left when a path is cleaned.
unfoldable pub elements : Text → List Text
elements p = reverse (resolve (is_rooted p) [] (split p))

-- `path.Clean`
unfoldable pub clean : Text → Text
clean [] = dot
clean (c ∷ s) = render (nat_eq c slash) (elements (c ∷ s))

-- `filepath.Join` of two elements: empty ones are left out.
unfoldable pub join_path : Text → Text → Text
join_path [] [] = []
join_path [] (c ∷ s) = clean (c ∷ s)
join_path (c ∷ s) [] = clean (c ∷ s)
join_path (c ∷ s) (d ∷ t) = clean ((c ∷ s) ++ slash ∷ d ∷ t)

-- `strings.TrimRight(s, "/")`
unfoldable pub trim_slashes : Text → Text
trim_slashes [] = []
trim_slashes (c ∷ s) = let t = trim_slashes s in if nat_eq c slash && t == [] then [] else c ∷ t

abbrev pub last_of : List Text → Text
last_of [] = []
last_of (w ∷ []) = w
last_of (w ∷ v ∷ ws) = last_of (v ∷ ws)

-- `path.Base`
unfoldable pub base : Text → Text
base [] = dot
base (c ∷ s) = let w = last_of (split (trim_slashes (c ∷ s))) in if w == [] then slash ∷ [] else w

-- `strings.ReplaceAll` of one character by another.
unfoldable pub replace_all : ℕ → ℕ → Text → Text
replace_all a b [] = []
replace_all a b (c ∷ s) = (if nat_eq c a then b else c) ∷ replace_all a b s

-- `unicode.IsSpace`
unfoldable pub is_space : ℕ → Bool
is_space c =
    (leb 9 c && leb c 13)
    || nat_eq c 32
    || nat_eq c 0x85
    || nat_eq c 0xA0
    || nat_eq c 0x1680
    || (leb 0x2000 c && leb c 0x200A)
    || nat_eq c 0x2028
    || nat_eq c 0x2029
    || nat_eq c 0x202F
    || nat_eq c 0x205F
    || nat_eq c 0x3000

unfoldable pub trim_left : Text → Text
trim_left [] = []
trim_left (c ∷ s) = if is_space c then trim_left s else c ∷ s

unfoldable pub trim_right : Text → Text
trim_right [] = []
trim_right (c ∷ s) = let t = trim_right s in if is_space c && t == [] then [] else c ∷ t

-- `strings.TrimSpace`
unfoldable pub trim_space : Text → Text
trim_space s = trim_right (trim_left s)
