-- ===== src/GoPath/Canonical.antt =====
-- The form that `path.Clean` gives a path, and that a second call leaves it alone.
use mathlib.Core.List.{reverse_aux, reverse-reverse}
use my_personal_cloud.Prelude.{
  ◌≡◌, ◌≢◌, refl, sym, ◌==◌, eq_iff, Bool, true, false, List, [], ◌∷◌, Text, arith, All, inl, inr,
  ◌⊎◌, reverse, All-reverse_aux,
}
use my_personal_cloud.GoPath.{
  dot, dots, split, join, step_up, step, resolve, render, elements, clean, is_rooted,
}
use my_personal_cloud.GoPath.Split.{NoSlash, split-NoSlash, split-join}

-- An element that names an entry of a directory: not empty, not "." or "..", and without a slash.
abbrev pub IsPlain : Text → Type 0
IsPlain w = (w ≢ []) × (w ≢ dot) × (w ≢ dots) × NoSlash w

-- A stack of resolved elements: plain ones, and ".." only at the bottom of a relative path.
abbrev pub Stacked : Bool → List Text → Type 0
Stacked r [] = Unit
Stacked r (w ∷ s) = (IsPlain w ⊎ ((r ≡ false) × (w ≡ dots) × All (λ v. v ≡ dots) s)) × Stacked r s

step_up-Stacked : (r : Bool) (s : List Text) → Stacked r s → Stacked r (step_up r s)
unfolding step_up
step_up-Stacked true [] h = tt
step_up-Stacked false [] h = (inr (refl, refl, tt), tt)
step_up-Stacked true (w ∷ s) h = ground (arith, eq_iff w dots)
step_up-Stacked false (w ∷ s) h = ground (arith, eq_iff w dots)

step-Stacked :
    (r : Bool) (s : List Text) (w : Text) → NoSlash w → Stacked r s → Stacked r (step r s w)
unfolding step
step-Stacked r s w p h =
    ground (arith, eq_iff w [], eq_iff w dot, eq_iff w dots, step_up-Stacked r s h)

pub resolve-Stacked :
    (r : Bool) (s ws : List Text) → All NoSlash ws → Stacked r s → Stacked r (resolve r s ws)
unfolding resolve
resolve-Stacked r s [] p h = h
resolve-Stacked r s (w ∷ ws) p h = resolve-Stacked r (step r s w) ws p.1 (step-Stacked r s w p.0 h)

step_of_Stacked : (r : Bool) (s : List Text) (w : Text) → Stacked r (w ∷ s) → step r s w ≡ w ∷ s
unfolding step step_up
step_of_Stacked true s w h = ground (arith, eq_iff w [], eq_iff w dot, eq_iff w dots)
step_of_Stacked false [] w h = ground (arith, eq_iff w [], eq_iff w dot, eq_iff w dots)
step_of_Stacked false (v ∷ s) w h =
    ground (arith, eq_iff w [], eq_iff w dot, eq_iff w dots, eq_iff v dots)

pub Stacked-tail : (r : Bool) (ws s : List Text) → Stacked r (reverse_aux ws s) → Stacked r s
Stacked-tail r [] s h = h
Stacked-tail r (w ∷ ws) s h = (Stacked-tail r ws (w ∷ s) h).1

-- Resolving what is resolved already changes nothing.
pub resolve_of_Stacked :
    (r : Bool) (ws s : List Text) → Stacked r (reverse_aux ws s) → resolve r s ws ≡ reverse_aux ws s
unfolding resolve
resolve_of_Stacked r [] s h = refl
resolve_of_Stacked r (w ∷ ws) s h =
    rw (step_of_Stacked r s w (Stacked-tail r ws (w ∷ s) h)) (resolve_of_Stacked r ws (w ∷ s) h)

Stacked-NoSlash : (r : Bool) (s : List Text) → Stacked r s → All NoSlash s
Stacked-NoSlash r [] h = tt
Stacked-NoSlash r (w ∷ s) (inl p, h) = (p.3, Stacked-NoSlash r s h)
Stacked-NoSlash r (w ∷ s) (inr p, h) =
    (rw p.1 (omega arith, (omega arith, tt)), Stacked-NoSlash r s h)

Stacked-nonempty : (r : Bool) (s : List Text) → Stacked r s → All (λ w. w ≢ []) s
Stacked-nonempty r [] h = tt
Stacked-nonempty r (w ∷ s) (inl p, h) = (p.0, Stacked-nonempty r s h)
Stacked-nonempty r (w ∷ s) (inr p, h) = (rw p.1 cc, Stacked-nonempty r s h)

-- Elements in order of a cleaned path.
abbrev pub IsCanonical : Bool → List Text → Type 0
IsCanonical r ws = Stacked r (reverse ws)

pub IsCanonical-NoSlash : (r : Bool) (ws : List Text) → IsCanonical r ws → All NoSlash ws
IsCanonical-NoSlash r ws h =
    rw (sym (reverse-reverse ws))
      (All-reverse_aux NoSlash (reverse ws) [] (Stacked-NoSlash r _ h) tt)

pub IsCanonical-nonempty : (r : Bool) (ws : List Text) → IsCanonical r ws → All (λ w. w ≢ []) ws
IsCanonical-nonempty r ws h =
    rw (sym (reverse-reverse ws))
      (All-reverse_aux (λ w. w ≢ []) (reverse ws) [] (Stacked-nonempty r _ h) tt)

pub elements-IsCanonical : (p : Text) → IsCanonical (is_rooted p) (elements p)
unfolding elements
elements-IsCanonical p =
    rw (reverse-reverse (resolve (is_rooted p) [] (split p)))
      (resolve-Stacked (is_rooted p) [] (split p) (split-NoSlash p) tt)

pub join-head :
    (w : Text) (ws : List Text)
    → w ≢ []
    → NoSlash w
    → (join (w ∷ ws) ≢ []) × (is_rooted (join (w ∷ ws)) ≡ false)
unfolding join
join-head [] ws h p = absurd (h refl)
join-head (c ∷ w) [] h p = (cc, ground arith)
join-head (c ∷ w) (v ∷ ws) h p = (cc, ground arith)

-- A rendered path keeps its kind and its elements.
pub is_rooted-render : (r : Bool) (ws : List Text) → IsCanonical r ws → is_rooted (render r ws) ≡ r
unfolding render
is_rooted-render true ws h = refl
is_rooted-render false [] h = refl
is_rooted-render false (w ∷ ws) h =
    (join-head w ws (IsCanonical-nonempty false (w ∷ ws) h).0
      (IsCanonical-NoSlash false (w ∷ ws) h).0).1

resolve-join :
    (r : Bool) (w : Text) (ws : List Text)
    → IsCanonical r (w ∷ ws)
    → reverse (resolve r [] (split (join (w ∷ ws)))) ≡ w ∷ ws
resolve-join r w ws h =
    rw (split-join w ws (IsCanonical-NoSlash r (w ∷ ws) h), resolve_of_Stacked r (w ∷ ws) [] h)
      (reverse-reverse (w ∷ ws))

pub elements-render : (r : Bool) (ws : List Text) → IsCanonical r ws → elements (render r ws) ≡ ws
unfolding render elements split resolve step ◌==◌ join
elements-render true [] h = refl
elements-render true (w ∷ ws) h = resolve-join true w ws h
elements-render false [] h = refl
elements-render false (w ∷ ws) h =
    rw (is_rooted-render false (w ∷ ws) h) (resolve-join false w ws h)

pub clean-eq-render : (p : Text) → clean p ≡ render (is_rooted p) (elements p)
unfolding clean elements split resolve step render ◌==◌
clean-eq-render [] = refl
clean-eq-render (c ∷ s) = refl

pub elements-clean : (p : Text) → elements (clean p) ≡ elements p
elements-clean p =
    rw clean-eq-render (elements-render (is_rooted p) (elements p) (elements-IsCanonical p))

pub is_rooted-clean : (p : Text) → is_rooted (clean p) ≡ is_rooted p
is_rooted-clean p =
    rw clean-eq-render (is_rooted-render (is_rooted p) (elements p) (elements-IsCanonical p))

pub clean_idempotent : (p : Text) → clean (clean p) ≡ clean p
clean_idempotent p =
    rw (clean-eq-render (clean p), is_rooted-clean p, elements-clean p) (sym (clean-eq-render p))
