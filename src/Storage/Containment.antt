-- ===== src/Storage/Containment.antt =====
-- The paths that the store opens and removes stay below its root.
use mathlib.Core.List.{reverse-reverse, reverse-append, reverse-cons, append_assoc, append-nil}
use my_personal_cloud.Prelude.{
  ℕ, ◌≡◌, ◌≢◌, refl, sym, ap, ◌∙◌, ◌++◌, ◌==◌, eq_iff, Bool, true, false, List, [], ◌∷◌, Text,
  arith, All, has_prefix, has_prefix_sound, inl, inr, Bool-cases, reverse, nat_eq, All-reverse_aux,
}
use my_personal_cloud.GoPath.{
  slash, dot, dots, split, join, step, resolve, render, elements, clean, is_rooted, join_path,
}
use my_personal_cloud.GoPath.Split.{NoSlash, split-append, split-cons, split-join, split_of_NoSlash}
use my_personal_cloud.GoPath.Canonical.{
  IsPlain, Stacked, IsCanonical, elements-IsCanonical, clean-eq-render, join-head, elements-clean,
  is_rooted-clean, IsCanonical-NoSlash, IsCanonical-nonempty,
}
use my_personal_cloud.Storage.{abs, invalid_name}

-- A root that names a directory: its last element is not "..". The roots "/" and "." are not of
-- this kind.
abbrev pub IsProperRoot : Text → Type 0
IsProperRoot root = (es : List Text) × (w : Text) × (elements root ≡ es ++ w ∷ []) × IsPlain w

-- A path whose elements are those of the root and further plain ones.
abbrev pub IsWithin : Text → Text → Type 0
IsWithin root p =
    (is_rooted p ≡ is_rooted root)
    × ((ws : List Text) × (elements p ≡ elements root ++ ws) × All IsPlain ws)

pub step_of_IsPlain : (r : Bool) (s : List Text) (w : Text) → IsPlain w → step r s w ≡ w ∷ s
unfolding step
step_of_IsPlain r s w h = ground (arith, eq_iff w [], eq_iff w dot, eq_iff w dots)

pub resolve-append :
    (r : Bool) (s ws vs : List Text) → resolve r s (ws ++ vs) ≡ resolve r (resolve r s ws) vs
unfolding resolve
resolve-append r s [] vs = refl
resolve-append r s (w ∷ ws) vs = resolve-append r (step r s w) ws vs

pub elements-slash :
    (c : ℕ) (p name : Text)
    → IsPlain name
    → elements ((c ∷ p) ++ slash ∷ name) ≡ elements (c ∷ p) ++ name ∷ []
unfolding elements resolve
elements-slash c p name h =
    let r : Bool = nat_eq c slash in
    rw
      (
        split-append (c ∷ p) name,
        split_of_NoSlash name h.3,
        resolve-append r [] (split (c ∷ p)) (name ∷ []),
        step_of_IsPlain r (resolve r [] (split (c ∷ p))) name h,
      )
      (reverse-cons name (resolve r [] (split (c ∷ p))))

-- Joining a plain name to a directory adds it to the elements.
pub elements-join_path :
    (c : ℕ) (root name : Text)
    → IsPlain name
    → (elements (join_path (c ∷ root) name) ≡ elements (c ∷ root) ++ name ∷ [])
      × (is_rooted (join_path (c ∷ root) name) ≡ is_rooted (c ∷ root))
unfolding join_path
elements-join_path c root [] h = absurd (h.0 refl)
elements-join_path c root (d ∷ name) h =
    let p : Text = (c ∷ root) ++ slash ∷ d ∷ name in
    (elements-clean p ∙ elements-slash c root (d ∷ name) h, is_rooted-clean p)

not_single : (es : List Text) (rest e w : Text) → ¬ (w ∷ [] ≡ e ∷ (es ++ split rest))
not_single [] rest e w h =
    let (v, vs, q) = split-cons rest in let clash : w ∷ [] ≡ e ∷ v ∷ vs = rw (← q) h in cc clash
not_single (d ∷ es) rest e w h = cc h

split_longer :
    (f : Text) (fs : List Text) (e : Text) (es : List Text) (rest : Text)
    → All NoSlash (f ∷ fs)
    → All NoSlash (e ∷ es)
    → join (f ∷ fs) ≡ join (e ∷ es) ++ slash ∷ rest
    → f ∷ fs ≡ (e ∷ es) ++ split rest
split_longer f fs e es rest hf he h =
    sym (split-join f fs hf)
    ∙ ap split h
    ∙ split-append (join (e ∷ es)) rest
    ∙ ap (λ xs. xs ++ split rest) (split-join e es he)

-- A rendered path that begins with another and a slash has the other's elements first.
strip_render :
    (r : Bool) (fs : List Text) (e : Text) (es : List Text) (rest : Text)
    → IsCanonical r fs
    → IsCanonical r (e ∷ es)
    → render r fs ≡ render r (e ∷ es) ++ slash ∷ rest
    → fs ≡ (e ∷ es) ++ split rest
unfolding render split join
strip_render true [] e es rest hf he h =
    let tail : [] ≡ join (e ∷ es) ++ slash ∷ rest = cc h in
    absurd (
      not_single es rest e [] (
        ap split tail
        ∙ split-append (join (e ∷ es)) rest
        ∙ ap (λ xs. xs ++ split rest) (split-join e es (IsCanonical-NoSlash true (e ∷ es) he))))
strip_render false [] e es rest hf he h = absurd (
    not_single es rest e dot (
      ap split h
      ∙ split-append (join (e ∷ es)) rest
      ∙ ap (λ xs. xs ++ split rest) (split-join e es (IsCanonical-NoSlash false (e ∷ es) he))))
strip_render true (f ∷ fs) e es rest hf he h =
    split_longer f fs e es rest (IsCanonical-NoSlash true (f ∷ fs) hf)
      (IsCanonical-NoSlash true (e ∷ es) he) (cc h)
strip_render false (f ∷ fs) e es rest hf he h =
    split_longer f fs e es rest (IsCanonical-NoSlash false (f ∷ fs) hf)
      (IsCanonical-NoSlash false (e ∷ es) he) h

All-dots_last :
    (us : List Text) (w : Text) (s : List Text) → All (λ v. v ≡ dots) (us ++ w ∷ s) → w ≡ dots
All-dots_last [] w s h = h.0
All-dots_last (u ∷ us) w s h = All-dots_last us w s h.1

Stacked-above :
    (r : Bool) (us : List Text) (w : Text) (s : List Text)
    → Stacked r (us ++ w ∷ s)
    → IsPlain w
    → All IsPlain us
Stacked-above r [] w s h p = tt
Stacked-above r (u ∷ us) w s (inl q, h) p = (q, Stacked-above r us w s h p)
Stacked-above r (u ∷ us) w s (inr q, h) p = absurd (p.2 (All-dots_last us w s q.2))

-- Behind a plain element a canonical path has plain elements only.
pub IsCanonical-behind :
    (r : Bool) (es : List Text) (w : Text) (vs : List Text)
    → IsCanonical r ((es ++ w ∷ []) ++ vs)
    → IsPlain w
    → All IsPlain vs
IsCanonical-behind r es w vs h p =
    let turned : Stacked r (reverse vs ++ w ∷ reverse es) =
      rw (reverse-append (es ++ w ∷ []) vs, reverse-append es (w ∷ [])) at h in
    rw (sym (reverse-reverse vs)) (
      All-reverse_aux IsPlain (reverse vs) [] (Stacked-above r (reverse vs) w (reverse es) turned p)
        tt)

is_rooted-append : (p q : Text) → p ≢ [] → is_rooted (p ++ q) ≡ is_rooted p
is_rooted-append [] q h = absurd (h refl)
is_rooted-append (c ∷ p) q h = refl

pub render-ne-nil : (r : Bool) (ws : List Text) → IsCanonical r ws → render r ws ≢ []
unfolding render
render-ne-nil true ws h = cc
render-ne-nil false [] h = cc
render-ne-nil false (w ∷ ws) h =
    (join-head w ws (IsCanonical-nonempty false (w ∷ ws) h).0
      (IsCanonical-NoSlash false (w ∷ ws) h).0).0

pub cons_of_concat :
    (xs es : List Text) (w : Text)
    → xs ≡ es ++ w ∷ []
    → (y : Text) × (ys : List Text) × (xs ≡ y ∷ ys)
cons_of_concat xs [] w e = (w, [], e)
cons_of_concat xs (v ∷ es) w e = (v, es ++ w ∷ [], e)

-- What follows the root in a canonical path that begins with it.
further :
    (r : Bool) (fs xs : List Text) (rest : Text)
    → IsCanonical r fs
    → IsCanonical r xs
    → ((es : List Text) × (w : Text) × (xs ≡ es ++ w ∷ []) × IsPlain w)
    → render r fs ≡ render r xs ++ slash ∷ rest
    → (ws : List Text) × (fs ≡ xs ++ ws) × All IsPlain ws
further r fs xs rest hf hx (es, w, e, plain) h =
    let (y, ys, q) = cons_of_concat xs es w e in
    let longer : fs ≡ xs ++ split rest =
      rw q (strip_render r fs y ys rest hf (rw q at hx) (rw q at h)) in
    let behind : IsCanonical r ((es ++ w ∷ []) ++ split rest) = rw (longer, e) at hf in
    (split rest, longer, IsCanonical-behind r es w (split rest) behind plain)

clean-IsWithin :
    (root q rest : Text)
    → IsProperRoot root
    → clean q ≡ clean root ++ slash ∷ rest
    → IsWithin root (clean q)
clean-IsWithin root q rest proper h =
    let ne : clean root ≢ [] =
      rw (clean-eq-render root)
        (render-ne-nil (is_rooted root) (elements root) (elements-IsCanonical root)) in
    let same : is_rooted q ≡ is_rooted root =
      sym (is_rooted-clean q)
      ∙ ap (λ p. is_rooted p) h
      ∙ is_rooted-append (clean root) (slash ∷ rest) ne
      ∙ is_rooted-clean root in
    let h' : render (is_rooted root) (elements q)
        ≡ render (is_rooted root) (elements root) ++ slash ∷ rest =
      rw (← same, ← clean-eq-render q, same, ← clean-eq-render root) h in
    (
      is_rooted-clean q ∙ same,
      rw (elements-clean q) (
          further (is_rooted root) (elements q) (elements root) rest
            (rw same at (elements-IsCanonical q)) (elements-IsCanonical root) proper h'),
    )

pub join_path-clean : (c : ℕ) (root rel : Text) → (q : Text) × (join_path (c ∷ root) rel ≡ clean q)
unfolding join_path
join_path-clean c root [] = (c ∷ root, refl)
join_path-clean c root (d ∷ rel) = ((c ∷ root) ++ slash ∷ d ∷ rel, refl)

pub elements-nil : elements [] ≡ []
unfolding elements split resolve step ◌==◌
elements-nil = refl

invalid_name-IsPlain : IsPlain invalid_name
invalid_name-IsPlain = (cc, cc, cc, omega arith)

-- For a root whose last element names an entry of a directory (it is not "/", "." or one that ends
-- in ".."), and whatever storage path: the path of the file that the store opens or removes has
-- the elements of the root and further ones that are plain, so it is the root or below it.
pub abs-IsWithin : (root rel : Text) → IsProperRoot root → IsWithin root (abs root rel)
unfolding abs
abs-IsWithin [] rel (es, w, e, plain) =
    let (y, ys, q) = cons_of_concat (elements []) es w e in
    let clash : [] ≡ y ∷ ys = sym elements-nil ∙ q in absurd (cc clash)
abs-IsWithin (c ∷ root) rel proper =
    let (q, j) = join_path-clean c root rel in
    let (at_name, kind) = elements-join_path c root invalid_name invalid_name-IsPlain in
    rw j (elim (Bool-cases (has_prefix (clean q) (clean (c ∷ root) ++ slash ∷ []))) [
      | inl e ↦
          let (rest, f) = has_prefix_sound (clean q) (clean (c ∷ root) ++ slash ∷ []) e in
          rw e (
            clean-IsWithin (c ∷ root) q rest proper
              (f ∙ append_assoc (clean (c ∷ root)) (slash ∷ []) rest))
      | inr e ↦ elim (Bool-cases (clean q == clean (c ∷ root))) [
        | inl f ↦
            rw (e, f, (eq_iff _ _).0 f)
              (
                is_rooted-clean (c ∷ root),
                ([], elements-clean (c ∷ root) ∙ sym (append-nil (elements (c ∷ root))), tt),
              )
        | inr f ↦ rw (e, f) (kind, (invalid_name ∷ [], at_name, (invalid_name-IsPlain, tt)))
      ]
    ])
