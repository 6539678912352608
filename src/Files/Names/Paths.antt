-- ===== src/Files/Names/Paths.antt =====
-- Folder paths: absolute, and without "", "." and ".." among their elements.
use my_personal_cloud.Prelude.{
  ◌≡◌, ◌≢◌, refl, sym, ap, ◌∙◌, ◌++◌, ◌==◌, eq_iff, eq_refl, true, List, [], ◌∷◌, Text, arith, All,
  All-append, All-reverse_aux, has_prefix, inl, inr, Bool-cases, reverse, if◌then◌else◌,
}
use mathlib.Core.List.{reverse-reverse, append_assoc}
use my_personal_cloud.GoPath.{slash, dot, join, render, elements, clean, is_rooted}
use my_personal_cloud.GoPath.Canonical.{
  join-head, IsPlain, Stacked, IsCanonical, elements-IsCanonical, elements-render, clean-eq-render,
}
use my_personal_cloud.Files.Names.{root_path, folder_full_path, normalize_parent}

abbrev pub IsFolderPath : Text → Type 0
IsFolderPath p = (ws : List Text) × (p ≡ render true ws) × All IsPlain ws

Stacked-IsPlain : (s : List Text) → Stacked true s → All IsPlain s
Stacked-IsPlain [] h = tt
Stacked-IsPlain (w ∷ s) (inl p, h) = (p, Stacked-IsPlain s h)
Stacked-IsPlain (w ∷ s) (inr p, h) = absurd (cc p.0)

IsPlain-Stacked : (s : List Text) → All IsPlain s → Stacked true s
IsPlain-Stacked [] h = tt
IsPlain-Stacked (w ∷ s) h = (inl h.0, IsPlain-Stacked s h.1)

pub All-reverse : (ws : List Text) → All IsPlain ws → All IsPlain (reverse ws)
All-reverse ws h = All-reverse_aux IsPlain ws [] h tt

pub IsPlain-IsCanonical : (ws : List Text) → All IsPlain ws → IsCanonical true ws
IsPlain-IsCanonical ws h = IsPlain-Stacked (reverse ws) (All-reverse ws h)

IsCanonical-IsPlain : (ws : List Text) → IsCanonical true ws → All IsPlain ws
IsCanonical-IsPlain ws h =
    rw (sym (reverse-reverse ws)) (All-reverse (reverse ws) (Stacked-IsPlain (reverse ws) h))

-- A rooted path is cleaned to a folder path.
clean_rooted : (p : Text) → is_rooted p ≡ true → IsFolderPath (clean p)
clean_rooted p h =
    let e : clean p ≡ render true (elements p) = rw (← h) (clean-eq-render p) in
    (elements p, e, IsCanonical-IsPlain (elements p) (rw h at (elements-IsCanonical p)))

root-IsFolderPath : IsFolderPath root_path
unfolding render join
root-IsFolderPath = ([], refl, tt)

render_head :
    (ws : List Text)
    → (is_rooted (render true ws) ≡ true)
      × (render true ws ≢ [])
      × (render true ws ≢ dot)
      × (has_prefix (render true ws) root_path ≡ true)
unfolding render has_prefix
render_head ws = ground arith

rooted_prefix : (p : Text) → has_prefix p root_path ≡ true → is_rooted p ≡ true
unfolding has_prefix
rooted_prefix [] h = h
rooted_prefix (c ∷ p) h = ground arith

absolute-IsFolderPath :
    (q : Text) → is_rooted q ≡ true → IsFolderPath (if clean q == dot then root_path else clean q)
absolute-IsFolderPath q h = elim (Bool-cases (clean q == dot)) [
  | inl e ↦ rw e root-IsFolderPath
  | inr e ↦ rw e (clean_rooted q h)
]

-- Whatever path a client sends, the folder path made of it is absolute, and none of its elements
-- is empty, ".", ".." or holds a slash.
pub normalize_parent-IsFolderPath : (p : Text) → IsFolderPath (normalize_parent p)
unfolding normalize_parent
normalize_parent-IsFolderPath p = elim (Bool-cases (p == [])) [
  | inl e ↦ rw e root-IsFolderPath
  | inr e ↦ elim (Bool-cases (has_prefix p root_path)) [
    | inl f ↦ rw (e, f) (absolute-IsFolderPath p (rooted_prefix p f))
    | inr f ↦ rw (e, f) (absolute-IsFolderPath (slash ∷ p) refl)
  ]
]

-- Normalizing leaves a folder path alone.
pub normalize_parent_of_IsFolderPath : (p : Text) → IsFolderPath p → normalize_parent p ≡ p
unfolding normalize_parent
normalize_parent_of_IsFolderPath p (ws, e, h) =
    let (rooted, ne_nil, ne_dot, prefix) = render_head ws in
    let c : IsCanonical true ws = IsPlain-IsCanonical ws h in
    let same : clean (render true ws) ≡ render true ws =
      rw (clean-eq-render (render true ws), rooted, elements-render true ws c) refl in
    rw e (ground (arith, eq_iff (render true ws) [], eq_iff (render true ws) dot))

join-concat :
    (w : Text) (ws : List Text) (n : Text) → join ((w ∷ ws) ++ n ∷ []) ≡ join (w ∷ ws) ++ slash ∷ n
unfolding join
join-concat w [] n = refl
join-concat w (v ∷ ws) n =
    rw (join-concat v ws n) (sym (append_assoc w (slash ∷ join (v ∷ ws)) (slash ∷ n)))

-- The full path of a folder is its parent's elements and its name.
pub folder_full_path-render :
    (ws : List Text) (name : Text)
    → All IsPlain ws
    → folder_full_path (render true ws) name ≡ render true (ws ++ name ∷ [])
unfolding folder_full_path render join
folder_full_path-render [] name h = ground (arith, eq_refl root_path)
folder_full_path-render (w ∷ ws) name h =
    let (ne, _) = join-head w ws h.0.0 h.0.3 in
    ground (arith, eq_iff (slash ∷ join (w ∷ ws)) root_path, join-concat w ws name)

pub folder_full_path-IsFolderPath :
    (p name : Text) → IsFolderPath p → IsPlain name → IsFolderPath (folder_full_path p name)
folder_full_path-IsFolderPath p name (ws, e, h) plain = (
  ws ++ name ∷ [],
  rw e (folder_full_path-render ws name h),
  All-append IsPlain ws (name ∷ []) h (plain, tt),
)

concat_inj : (ws vs : List Text) {m n : Text} → ws ++ m ∷ [] ≡ vs ++ n ∷ [] → (ws ≡ vs) × (m ≡ n)
concat_inj [] [] e = (refl, cc)
concat_inj [] (v ∷ []) e = absurd (cc e)
concat_inj [] (v ∷ u ∷ vs) e = absurd (cc e)
concat_inj (w ∷ []) [] e = absurd (cc e)
concat_inj (w ∷ u ∷ ws) [] e = absurd (cc e)
concat_inj (w ∷ ws) (v ∷ vs) {m} {n} e =
    let head : w ≡ v = cc e in
    let rest : ws ++ m ∷ [] ≡ vs ++ n ∷ [] = cc e in
    let (p, q) = concat_inj ws vs rest in (rw (head, p) refl, q)

full_elements :
    (ws : List Text) (name : Text)
    → All IsPlain ws
    → IsPlain name
    → elements (folder_full_path (render true ws) name) ≡ ws ++ name ∷ []
full_elements ws name h plain = rw (folder_full_path-render ws name h) (
    elements-render true (ws ++ name ∷ [])
      (IsPlain-IsCanonical (ws ++ name ∷ []) (All-append IsPlain ws (name ∷ []) h (plain, tt))))

-- Parents that are folder paths and names that are plain are given by the full path: where two full
-- paths are the same, so are the parents and the names.
pub folder_full_path_injective :
    (p q m n : Text)
    → IsFolderPath p
    → IsFolderPath q
    → IsPlain m
    → IsPlain n
    → folder_full_path p m ≡ folder_full_path q n
    → (p ≡ q) × (m ≡ n)
folder_full_path_injective p q m n (ws, e, h) (vs, f, k) plain_m plain_n same =
    let (es, en) = concat_inj ws vs {m = m} {n = n} (
      sym (full_elements ws m h plain_m)
      ∙ ap elements (rw (← e, ← f) same)
      ∙ full_elements vs n k plain_n) in
    (rw (e, f, es) refl, en)
