-- ===== src/Backup/Below.antt =====
-- The paths below a directory: joining the relative path of one to a directory.
use mathlib.Core.List.{reverse_aux, reverse-reverse, append-nil}
use my_personal_cloud.Prelude.{
  ℕ, ◌≡◌, ◌≢◌, refl, sym, ap, ◌∙◌, ◌++◌, ◌==◌, eq_iff, Bool, true, false, inl, inr, List, [], ◌∷◌,
  Text, arith, All, Bool-cases, reverse, nat_eq,
}
use my_personal_cloud.GoPath.{
  slash, split, join, resolve, render, elements, clean, is_rooted, join_path,
}
use my_personal_cloud.GoPath.Split.{NoSlash, split-append, split-join}
use my_personal_cloud.GoPath.Canonical.{
  IsPlain, Stacked, IsCanonical, elements-IsCanonical, elements-render, is_rooted-render,
  clean-eq-render, join-head,
}
use my_personal_cloud.Storage.{rel_path, strip_common, same_kind}
use my_personal_cloud.Storage.Containment.{
  step_of_IsPlain, resolve-append, IsProperRoot, IsCanonical-behind,
}
use my_personal_cloud.Backup.Archive.{below, ends_inside}
use my_personal_cloud.Storage.Paths.{strip_common-append, same_kind_refl, proper-ne-nil}

-- The path that has the elements of the directory and these.
unfoldable pub under : Text → List Text → Text
under dir ws = render (is_rooted dir) (elements dir ++ ws)

resolve_plain : (r : Bool) (s ws : List Text) → All IsPlain ws → resolve r s ws ≡ reverse_aux ws s
unfolding resolve
resolve_plain r s [] h = refl
resolve_plain r s (w ∷ ws) h = rw (step_of_IsPlain r s w h.0) (resolve_plain r (w ∷ s) ws h.1)

reverse_aux-append :
    (xs ys s : List Text) → reverse_aux (xs ++ ys) s ≡ reverse_aux ys (reverse_aux xs s)
reverse_aux-append [] ys s = refl
reverse_aux-append (x ∷ xs) ys s = reverse_aux-append xs ys (x ∷ s)

reverse_aux-reverse_aux :
    (ws s t : List Text) → reverse_aux (reverse_aux ws s) t ≡ reverse_aux s (ws ++ t)
reverse_aux-reverse_aux [] s t = refl
reverse_aux-reverse_aux (w ∷ ws) s t = reverse_aux-reverse_aux ws (w ∷ s) t

reverse_aux-eq : (s t : List Text) → reverse_aux s t ≡ reverse s ++ t
reverse_aux-eq s t =
    sym (reverse_aux-reverse_aux [] s t)
    ∙ sym (ap (λ u. reverse_aux u t) (reverse-reverse s))
    ∙ reverse_aux-reverse_aux (reverse s) [] t

-- Resolving plain elements behind others adds them.
resolved_plain :
    (r : Bool) (s ws : List Text) → All IsPlain ws → reverse (resolve r s ws) ≡ reverse s ++ ws
resolved_plain r s ws h =
    rw (resolve_plain r s ws h, reverse_aux-reverse_aux ws s [], append-nil ws)
      (reverse_aux-eq s ws)

Stacked-plain :
    (r : Bool) (s ws : List Text) → Stacked r s → All IsPlain ws → Stacked r (reverse_aux ws s)
Stacked-plain r s [] h p = h
Stacked-plain r s (w ∷ ws) h p = Stacked-plain r (w ∷ s) ws (inl p.0, h) p.1

under-IsCanonical :
    (dir : Text) (ws : List Text)
    → All IsPlain ws
    → IsCanonical (is_rooted dir) (elements dir ++ ws)
under-IsCanonical dir ws h =
    rw (reverse_aux-append (elements dir) ws [])
      (Stacked-plain (is_rooted dir) (reverse (elements dir)) ws (elements-IsCanonical dir) h)

pub elements-under :
    (dir : Text) (ws : List Text)
    → All IsPlain ws
    → (elements (under dir ws) ≡ elements dir ++ ws) × (is_rooted (under dir ws) ≡ is_rooted dir)
unfolding under
elements-under dir ws h = (
  elements-render (is_rooted dir) (elements dir ++ ws) (under-IsCanonical dir ws h),
  is_rooted-render (is_rooted dir) (elements dir ++ ws) (under-IsCanonical dir ws h),
)

plain_NoSlash : (ws : List Text) → All IsPlain ws → All NoSlash ws
plain_NoSlash [] h = tt
plain_NoSlash (w ∷ ws) h = (h.0.3, plain_NoSlash ws h.1)

-- A path that is read as the elements of a directory and plain ones behind them.
joined_elements :
    (c : ℕ) (dir : Text) (w : Text) (ws : List Text)
    → All IsPlain (w ∷ ws)
    → elements ((c ∷ dir) ++ slash ∷ join (w ∷ ws)) ≡ elements (c ∷ dir) ++ w ∷ ws
unfolding elements
joined_elements c dir w ws h =
    let r : Bool = nat_eq c slash in
    rw
      (
        split-append (c ∷ dir) (join (w ∷ ws)),
        split-join w ws (plain_NoSlash (w ∷ ws) h),
        resolve-append r [] (split (c ∷ dir)) (w ∷ ws),
      )
      (resolved_plain r (resolve r [] (split (c ∷ dir))) (w ∷ ws) h)

join_path-cons :
    (c : ℕ) (dir t : Text) → t ≢ [] → join_path (c ∷ dir) t ≡ clean ((c ∷ dir) ++ slash ∷ t)
unfolding join_path
join_path-cons c dir [] h = absurd (h refl)
join_path-cons c dir (d ∷ t) h = refl

-- `filepath.Join` of a directory and a relative path with plain elements.
join_path_cons-under :
    (c : ℕ) (dir : Text) (w : Text) (ws : List Text)
    → All IsPlain (w ∷ ws)
    → join_path (c ∷ dir) (join (w ∷ ws)) ≡ under (c ∷ dir) (w ∷ ws)
unfolding under
join_path_cons-under c dir w ws h =
    let t : Text = join (w ∷ ws) in
    join_path-cons c dir t (join-head w ws h.0.0 h.0.3).0
    ∙ clean-eq-render ((c ∷ dir) ++ slash ∷ t)
    ∙ ap (render (is_rooted (c ∷ dir))) (joined_elements c dir w ws h)

pub join_path-under :
    (dir : Text) (w : Text) (ws : List Text)
    → IsProperRoot dir
    → All IsPlain (w ∷ ws)
    → join_path dir (join (w ∷ ws)) ≡ under dir (w ∷ ws)
join_path-under [] w ws proper h = absurd (proper-ne-nil [] proper refl)
join_path-under (c ∷ dir) w ws proper h = join_path_cons-under c dir w ws h

pub rel_path-under :
    (dir : Text) (w : Text) (ws : List Text) (p : Text)
    → elements p ≡ elements dir ++ w ∷ ws
    → is_rooted p ≡ is_rooted dir
    → rel_path dir p ≡ join (w ∷ ws)
unfolding rel_path render
rel_path-under dir w ws p e r =
    rw (r, same_kind_refl (is_rooted dir), e, strip_common-append (elements dir) (w ∷ ws)) refl

strip_common_sound : (es ts us : List Text) → strip_common es ts ≡ ([], us) → ts ≡ es ++ us
unfolding strip_common
strip_common_sound [] ts us h = cc h
strip_common_sound (e ∷ es) [] us h = absurd (cc h)
strip_common_sound (e ∷ es) (t ∷ ts) us h = elim (Bool-cases (e == t)) [
  | inl f ↦
      let same : e ≡ t = (eq_iff e t).0 f in rw (same, strip_common_sound es ts us (rw f at h)) refl
  | inr f ↦ absurd (cc (rw f at h))
]

same_kind_sound : (a b : Bool) → same_kind a b ≡ true → a ≡ b
same_kind_sound true b h = sym h
same_kind_sound false true h = absurd (cc h)
same_kind_sound false false h = refl

-- A path is below a directory when its elements go on behind those of the directory.
inside_rest :
    (x : List Text × List Text)
    → ends_inside x ≡ true
    → (w : Text) × (ws : List Text) × (x ≡ ([], w ∷ ws))
inside_rest ([], w ∷ ws) h = (w, ws, refl)
inside_rest ([], []) h = absurd (cc h)
inside_rest (b ∷ bs, ws) h = absurd (cc h)

abbrev pub GoesOn : Text → Text → Text → List Text → Type 0
GoesOn dir p w ws = (is_rooted p ≡ is_rooted dir) × (elements p ≡ elements dir ++ w ∷ ws)

pub below_sound :
    (dir p : Text) → below dir p ≡ true → (w : Text) × (ws : List Text) × GoesOn dir p w ws
unfolding below
below_sound dir p h =
    let (k, i) : (same_kind (is_rooted dir) (is_rooted p) ≡ true)
        × (ends_inside (strip_common (elements dir) (elements p)) ≡ true) =
      ground arith in
    let (w, ws, e) = inside_rest (strip_common (elements dir) (elements p)) i in
    (
      w,
      ws,
      (
        sym (same_kind_sound (is_rooted dir) (is_rooted p) k),
        strip_common_sound (elements dir) (elements p) (w ∷ ws) e,
      ),
    )

pub below_complete : (dir p w : Text) (ws : List Text) → GoesOn dir p w ws → below dir p ≡ true
unfolding below
below_complete dir p w ws (r, e) =
    rw (r, same_kind_refl (is_rooted dir), e, strip_common-append (elements dir) (w ∷ ws)) refl

-- A cleaned path below a proper directory is made from the directory and plain elements.
pub below_proper :
    (dir p : Text)
    → IsProperRoot dir
    → clean p ≡ p
    → below dir p ≡ true
    → (w : Text) × (ws : List Text) × (p ≡ under dir (w ∷ ws)) × All IsPlain (w ∷ ws)
unfolding under
below_proper dir p (es, v, e, plain) k h =
    let (w, ws, (r, f)) = below_sound dir p h in
    let canonical : IsCanonical (is_rooted p) ((es ++ v ∷ []) ++ w ∷ ws) =
      rw (f, e) at (elements-IsCanonical p) in
    (
      w,
      ws,
      sym k ∙ clean-eq-render p ∙ ap (λ b. render b (elements p)) r ∙ ap (render (is_rooted dir)) f,
      IsCanonical-behind (is_rooted p) es v (w ∷ ws) canonical plain,
    )
