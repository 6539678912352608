-- ===== src/Storage/Paths.antt =====
-- The path that `Save` gives a file leads `Open` and `Delete` back to the file.
use mathlib.Core.List.{append_assoc}
use my_personal_cloud.Prelude.{
  ℕ, ◌≡◌, ◌≢◌, refl, sym, ap, ◌∙◌, ◌++◌, eq_refl, Bool, true, false, List, [], ◌∷◌, Text, arith,
  All, has_prefix, has_prefix-append,
}
use my_personal_cloud.GoPath.{slash, join, render, elements, clean, is_rooted, join_path}
use my_personal_cloud.GoPath.Split.{NoSlash}
use my_personal_cloud.GoPath.Canonical.{
  IsPlain, clean-eq-render, clean_idempotent, elements-IsCanonical,
}
use my_personal_cloud.Decimal.{decimal}
use my_personal_cloud.Decimal.Digits.{IsDigit, decimal-ne-nil, decimal-IsDigit}
use my_personal_cloud.Storage.{abs, rel_path, strip_common, same_kind}
use my_personal_cloud.Storage.Containment.{
  IsProperRoot, elements-join_path, elements-slash, join_path-clean, render-ne-nil, cons_of_concat,
  elements-nil,
}

digits-NoSlash : (s : Text) → All IsDigit s → NoSlash s
digits-NoSlash [] h = tt
digits-NoSlash (c ∷ s) h = (omega arith, digits-NoSlash s h.1)

digits-IsPlain : (s : Text) → s ≢ [] → All IsDigit s → IsPlain s
digits-IsPlain [] e h = absurd (e refl)
digits-IsPlain (c ∷ s) e h = (cc, ground arith, ground arith, digits-NoSlash (c ∷ s) h)

pub decimal-IsPlain : (n : ℕ) → IsPlain (decimal n)
decimal-IsPlain n = digits-IsPlain (decimal n) (decimal-ne-nil n) (decimal-IsDigit n)

pub strip_common-append : (es ts : List Text) → strip_common es (es ++ ts) ≡ ([], ts)
unfolding strip_common
strip_common-append [] ts = refl
strip_common-append (e ∷ es) ts = rw (eq_refl e) (strip_common-append es ts)

join-append :
    (e : Text) (es : List Text) (t : Text) (ts : List Text)
    → join ((e ∷ es) ++ t ∷ ts) ≡ join (e ∷ es) ++ slash ∷ join (t ∷ ts)
unfolding join
join-append e [] t ts = refl
join-append e (f ∷ es) t ts =
    rw (join-append f es t ts)
      (sym (append_assoc e (slash ∷ join (f ∷ es)) (slash ∷ join (t ∷ ts))))

render-append :
    (r : Bool) (e : Text) (es : List Text) (t : Text) (ts : List Text)
    → render r ((e ∷ es) ++ t ∷ ts) ≡ render r (e ∷ es) ++ slash ∷ join (t ∷ ts)
unfolding render
render-append true e es t ts = ap (λ s. slash ∷ s) (join-append e es t ts)
render-append false e es t ts = join-append e es t ts

pub same_kind_refl : (b : Bool) → same_kind b b ≡ true
same_kind_refl true = refl
same_kind_refl false = refl

-- A non-empty path and a plain name joined to it.
join-elements :
    (p name : Text)
    → p ≢ []
    → IsPlain name
    → (elements (join_path p name) ≡ elements p ++ name ∷ [])
      × (is_rooted (join_path p name) ≡ is_rooted p)
      × ((q : Text) × (join_path p name ≡ clean q))
join-elements [] name e h = absurd (e refl)
join-elements (c ∷ p) name e h =
    let (es, r) = elements-join_path c p name h in (es, r, join_path-clean c p name)

clean-ne-nil : (p : Text) → clean p ≢ []
clean-ne-nil p =
    rw (clean-eq-render p) (render-ne-nil (is_rooted p) (elements p) (elements-IsCanonical p))

render_of_clean : (p q : Text) → p ≡ clean q → p ≡ render (is_rooted p) (elements p)
render_of_clean p q e = e ∙ sym (clean_idempotent q) ∙ sym (ap clean e) ∙ clean-eq-render p

-- The path of a name in a directory of the root.
two_below :
    (root a b : Text)
    → root ≢ []
    → IsPlain a
    → IsPlain b
    → let dst = join_path (join_path root a) b in
      (elements dst ≡ elements root ++ a ∷ b ∷ [])
      × (is_rooted dst ≡ is_rooted root)
      × (dst ≡ render (is_rooted root) (elements root ++ a ∷ b ∷ []))
two_below root a b e pa pb =
    let (es, r, (q, f)) = join-elements root a e pa in
    let dir : Text = join_path root a in
    let (es', r', (q', f')) = join-elements dir b (rw f (clean-ne-nil q)) pb in
    let all : elements (join_path dir b) ≡ elements root ++ a ∷ b ∷ [] =
      es' ∙ ap (λ xs. xs ++ b ∷ []) es ∙ append_assoc (elements root) (a ∷ []) (b ∷ []) in
    let kind : is_rooted (join_path dir b) ≡ is_rooted root = r' ∙ r in
    (
      all,
      kind,
      render_of_clean (join_path dir b) q' f'
          ∙ (ap (λ k. render k (elements (join_path dir b))) kind
              ∙ ap (render (is_rooted root)) all),
    )

-- The same path, made from the root and the relative path in one step.
joined_at_once :
    (c : ℕ) (root a b : Text)
    → IsPlain a
    → IsPlain b
    → join_path (c ∷ root) (a ++ slash ∷ b)
      ≡ render (is_rooted (c ∷ root)) (elements (c ∷ root) ++ a ∷ b ∷ [])
unfolding join_path
joined_at_once c root [] b pa pb = absurd (pa.0 refl)
joined_at_once c root (d ∷ a) b pa pb =
    let p : Text = (c ∷ root) ++ slash ∷ d ∷ a in
    let once : elements (p ++ slash ∷ b) ≡ elements (c ∷ root) ++ (d ∷ a) ∷ b ∷ [] =
      elements-slash c (root ++ slash ∷ d ∷ a) b pb
      ∙ ap (λ xs. xs ++ b ∷ []) (elements-slash c root (d ∷ a) pa)
      ∙ append_assoc (elements (c ∷ root)) ((d ∷ a) ∷ []) (b ∷ []) in
    rw (sym (append_assoc (c ∷ root) (slash ∷ d ∷ a) (slash ∷ b)))
      (clean-eq-render (p ++ slash ∷ b) ∙ ap (render (is_rooted (c ∷ root))) once)

rel_path-below :
    (root dst a b : Text)
    → elements dst ≡ elements root ++ a ∷ b ∷ []
    → is_rooted dst ≡ is_rooted root
    → rel_path root dst ≡ a ++ slash ∷ b
unfolding rel_path render join
rel_path-below root dst a b e r =
    rw (r, same_kind_refl (is_rooted root), e, strip_common-append (elements root) (a ∷ b ∷ []))
      refl

below-has_prefix :
    (root a b : Text)
    → IsProperRoot root
    → has_prefix (render (is_rooted root) (elements root ++ a ∷ b ∷ [])) (clean root ++ slash ∷ [])
      ≡ true
below-has_prefix root a b (es, w, e, plain) =
    let (y, ys, q) = cons_of_concat (elements root) es w e in
    rw
      (
        clean-eq-render root,
        q,
        render-append (is_rooted root) y ys a (b ∷ []),
        sym (append_assoc (render (is_rooted root) (y ∷ ys)) (slash ∷ []) (join (a ∷ b ∷ []))),
      )
      (has_prefix-append (render (is_rooted root) (y ∷ ys) ++ slash ∷ []) (join (a ∷ b ∷ [])))

pub proper-ne-nil : (root : Text) → IsProperRoot root → root ≢ []
proper-ne-nil [] (es, w, e, plain) f =
    let (y, ys, q) = cons_of_concat (elements []) es w e in
    let clash : [] ≡ y ∷ ys = sym elements-nil ∙ q in absurd (cc clash)
proper-ne-nil (c ∷ root) h f = cc f

-- `abs` leads the relative path of a name in a directory of the root back to the name's path.
pub abs-rel_path :
    (root a b : Text)
    → IsProperRoot root
    → IsPlain a
    → IsPlain b
    → let dst = join_path (join_path root a) b in abs root (rel_path root dst) ≡ dst
unfolding abs
abs-rel_path [] a b h pa pb = absurd (proper-ne-nil [] h refl)
abs-rel_path (c ∷ root) a b h pa pb =
    let dst : Text = join_path (join_path (c ∷ root) a) b in
    let (es, r, f) = two_below (c ∷ root) a b (proper-ne-nil (c ∷ root) h) pa pb in
    rw
      (
        rel_path-below (c ∷ root) dst a b es r,
        joined_at_once c root a b pa pb,
        below-has_prefix (c ∷ root) a b h,
      )
      (sym f)
