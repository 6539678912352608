-- ===== src/Backup/Places.antt =====
-- Where the files of the storage stand: below the root, in the archive, below the temporary directory,
-- and below the root again.
use mathlib.Core.List.{append_assoc}
use my_personal_cloud.Prelude.{
  ◌≡◌, ◌≢◌, refl, sym, ap, ◌∙◌, ◌++◌, ◌==◌, true, false, List, [], ◌∷◌, Text, arith, All, drop,
  length, drop-append,
}
use my_personal_cloud.GoPath.{
  slash, join, render, split, resolve, step, elements, is_rooted, clean, join_path,
}
use my_personal_cloud.GoPath.Split.{NoSlash}
use my_personal_cloud.GoPath.Canonical.{IsPlain, join-head, clean-eq-render}
use my_personal_cloud.Storage.{rel_path}
use my_personal_cloud.Storage.Containment.{IsProperRoot}
use my_personal_cloud.Backup.Archive.{database_name, storage_name, below}
use my_personal_cloud.Backup.Copying.{is_directory}
use my_personal_cloud.Backup.Below.{
  under, elements-under, join_path-under, rel_path-under, GoesOn, below_sound, below_complete,
}

pub storage_name-IsPlain : IsPlain storage_name
storage_name-IsPlain = (cc, cc, cc, omega arith)

pub database_name-IsPlain : IsPlain database_name
database_name-IsPlain = (cc, cc, cc, omega arith)

storage_name-elements : elements storage_name ≡ storage_name ∷ []
unfolding elements split resolve step ◌==◌
storage_name-elements = refl

storage_name-IsProperRoot : IsProperRoot storage_name
storage_name-IsProperRoot = ([], storage_name, storage_name-elements, storage_name-IsPlain)

under_storage :
    (w : Text) (ws : List Text) → under storage_name (w ∷ ws) ≡ join (storage_name ∷ w ∷ ws)
unfolding under render
under_storage w ws = rw storage_name-elements refl

is_directory-append : (s t : Text) → t ≢ [] → is_directory (s ++ t) ≡ is_directory t
is_directory-append [] t h = refl
is_directory-append (c ∷ []) [] h = absurd (h refl)
is_directory-append (c ∷ []) (d ∷ t) h = refl
is_directory-append (c ∷ d ∷ s) t h = is_directory-append (d ∷ s) t h

is_directory_of_NoSlash : (s : Text) → NoSlash s → is_directory s ≡ false
unfolding ◌==◌
is_directory_of_NoSlash [] h = refl
is_directory_of_NoSlash (c ∷ []) h = ground arith
is_directory_of_NoSlash (c ∷ d ∷ s) h = is_directory_of_NoSlash (d ∷ s) h.1

-- A name of plain elements does not end with a slash.
pub is_directory-join :
    (w : Text) (ws : List Text) → All IsPlain (w ∷ ws) → is_directory (join (w ∷ ws)) ≡ false
unfolding join
is_directory-join w [] h = is_directory_of_NoSlash w h.0.3
is_directory-join w (v ∷ ws) h =
    is_directory-append w (slash ∷ join (v ∷ ws)) (λ e. cc e)
    ∙ is_directory-append (slash ∷ []) (join (v ∷ ws)) (join-head v ws h.1.0.0 h.1.0.3).0
    ∙ is_directory-join v ws h.1

append_cancel : (xs ys zs : List Text) → xs ++ ys ≡ xs ++ zs → ys ≡ zs
append_cancel xs ys zs e = sym (drop-append xs ys) ∙ ap (drop (length xs)) e ∙ drop-append xs zs

pub under_injective :
    (dir : Text) (vs ws : List Text)
    → All IsPlain vs
    → All IsPlain ws
    → under dir vs ≡ under dir ws
    → vs ≡ ws
under_injective dir vs ws h k e =
    append_cancel (elements dir) vs ws
      (sym (elements-under dir vs h).0 ∙ ap (λ p. elements p) e ∙ (elements-under dir ws k).0)

pub clean-under :
    (dir : Text) (ws : List Text) → All IsPlain ws → clean (under dir ws) ≡ under dir ws
unfolding under
clean-under dir ws h =
    clean-eq-render (under dir ws)
    ∙ ap (λ r. render r (elements (under dir ws))) (elements-under dir ws h).1
    ∙ ap (render (is_rooted dir)) (elements-under dir ws h).0

pub below-under :
    (dir : Text) (w : Text) (ws : List Text)
    → All IsPlain (w ∷ ws)
    → below dir (under dir (w ∷ ws)) ≡ true
below-under dir w ws h =
    let (e, r) = elements-under dir (w ∷ ws) h in
    below_complete dir (under dir (w ∷ ws)) w ws (r, e)

module _ (root tmp : Text) (proper_root : IsProperRoot root) (proper_tmp : IsProperRoot tmp) where
  pub entry_name :
      (w : Text) (ws : List Text)
      → All IsPlain (w ∷ ws)
      → join_path storage_name (rel_path root (under root (w ∷ ws))) ≡ join (storage_name ∷ w ∷ ws)
  entry_name w ws h =
      let (e, r) = elements-under root (w ∷ ws) h in
      ap (join_path storage_name) (rel_path-under root w ws (under root (w ∷ ws)) e r)
      ∙ join_path-under storage_name w ws storage_name-IsProperRoot h
      ∙ under_storage w ws

  pub extracted_to :
      (w : Text) (ws : List Text)
      → All IsPlain (w ∷ ws)
      → join_path tmp (join (storage_name ∷ w ∷ ws)) ≡ under tmp (storage_name ∷ w ∷ ws)
  extracted_to w ws h =
      join_path-under tmp storage_name (w ∷ ws) proper_tmp (storage_name-IsPlain, h)

  pub database_to : join_path tmp database_name ≡ under tmp (database_name ∷ [])
  unfolding join
  database_to = join_path-under tmp database_name [] proper_tmp (database_name-IsPlain, tt)

  abbrev pub src : Text
  src = join_path tmp storage_name

  src_is : src ≡ under tmp (storage_name ∷ [])
  unfolding join
  src_is = join_path-under tmp storage_name [] proper_tmp (storage_name-IsPlain, tt)

  src-elements :
      (elements src ≡ elements tmp ++ storage_name ∷ []) × (is_rooted src ≡ is_rooted tmp)
  src-elements =
      let (e, r) = elements-under tmp (storage_name ∷ []) (storage_name-IsPlain, tt) in
      rw src_is (e, r)

  pub src-GoesOn :
      (w : Text) (ws : List Text)
      → All IsPlain (w ∷ ws)
      → GoesOn src (under tmp (storage_name ∷ w ∷ ws)) w ws
  src-GoesOn w ws h =
      let (e, r) = elements-under tmp (storage_name ∷ w ∷ ws) (storage_name-IsPlain, h) in
      (
        r ∙ sym src-elements.1,
        e
            ∙ sym (append_assoc (elements tmp) (storage_name ∷ []) (w ∷ ws))
            ∙ sym (ap (λ xs. xs ++ w ∷ ws) src-elements.0),
      )

  -- Copying brings it back.
  pub copied_to :
      (w : Text) (ws : List Text)
      → All IsPlain (w ∷ ws)
      → join_path root (rel_path src (under tmp (storage_name ∷ w ∷ ws))) ≡ under root (w ∷ ws)
  copied_to w ws h =
      let (r, e) = src-GoesOn w ws h in
      ap (join_path root) (rel_path-under src w ws (under tmp (storage_name ∷ w ∷ ws)) e r)
      ∙ join_path-under root w ws proper_root h

  pub below-src-tmp : (p : Text) → below src p ≡ true → below tmp p ≡ true
  below-src-tmp p h =
      let (w, ws, (r, e)) = below_sound src p h in
      below_complete tmp p storage_name (w ∷ ws) (
        r ∙ src-elements.1,
        e
            ∙ ap (λ xs. xs ++ w ∷ ws) src-elements.0
            ∙ append_assoc (elements tmp) (storage_name ∷ []) (w ∷ ws),
      )

  -- The database is not among the files of the storage.
  pub database_not_storage : below src (under tmp (database_name ∷ [])) ≡ true → ⊥
  database_not_storage h =
      let (w, ws, (r, e)) = below_sound src (under tmp (database_name ∷ [])) h in
      let (f, q) = elements-under tmp (database_name ∷ []) (database_name-IsPlain, tt) in
      let same : database_name ∷ [] ≡ storage_name ∷ w ∷ ws =
        append_cancel (elements tmp) (database_name ∷ []) (storage_name ∷ w ∷ ws) (
          sym f
          ∙ e
          ∙ ap (λ xs. xs ++ w ∷ ws) src-elements.0
          ∙ append_assoc (elements tmp) (storage_name ∷ []) (w ∷ ws)) in
      cc same
