-- ===== src/Backup/Writes.antt =====
-- Many files written one after the other, and the files that `filepath.Walk` comes to.
use my_personal_cloud.Prelude.{
  ◌≡◌, ◌≢◌, refl, sym, ap, ◌∙◌, ◌==◌, eq_iff, eq_refl, ◌⊎◌, inl, inr, Bool, true, false, ◌||◌, List,
  [], ◌∷◌, some, Text, arith, All, Bool-cases, any, map, filter,
}
use my_personal_cloud.Sql.{insert_ordered, order_by}
use my_personal_cloud.Sql.Tables.{order_by-All}
use my_personal_cloud.World.{Disk}
use my_personal_cloud.Storage.{read_file, write_file, remove_file}
use my_personal_cloud.Storage.Reading.{read-write_other}
use my_personal_cloud.Storage.Retrieval.{read-write_file}
use my_personal_cloud.Backup.{Bytes}
use my_personal_cloud.Backup.Archive.{below, walk}

-- A file is created empty and then written.
unfoldable pub put : Text → Bytes → Disk → Disk
put path bytes disk = write_file path bytes (write_file path [] disk)

unfoldable pub puts : List (Text × Bytes) → Disk → Disk
puts [] disk = disk
puts ((path, bytes) ∷ files) disk = puts files (put path bytes disk)

read-put :
    (path : Text) (bytes : Bytes) (disk : Disk) → read_file path (put path bytes disk) ≡ some bytes
unfolding put
read-put path bytes disk = read-write_file path bytes (write_file path [] disk)

pub read-put_other :
    (path other : Text) (bytes : Bytes) (disk : Disk)
    → path ≢ other
    → read_file path (put other bytes disk) ≡ read_file path disk
unfolding put
read-put_other path other bytes disk e =
    read-write_other path other bytes (write_file other [] disk) e
    ∙ read-write_other path other [] disk e

-- A file that none of them is stays.
pub read-puts_other :
    (path : Text) (files : List (Text × Bytes)) (disk : Disk)
    → All (λ f. path ≢ f.0) files
    → read_file path (puts files disk) ≡ read_file path disk
unfolding puts
read-puts_other path [] disk h = refl
read-puts_other path ((p, bytes) ∷ files) disk h =
    read-puts_other path files (put p bytes disk) h.1 ∙ read-put_other path p bytes disk h.0

-- Where all that is written to the file is the same, the file has it in the end, when it is written
-- or had it before.
pub read-puts :
    (path : Text) (bytes : Bytes) (files : List (Text × Bytes)) (disk : Disk)
    → All (λ f. f.0 ≡ path → f.1 ≡ bytes) files
    → (any (λ f. f.0 == path) files ≡ true) ⊎ (read_file path disk ≡ some bytes)
    → read_file path (puts files disk) ≡ some bytes
unfolding puts
read-puts path bytes [] disk h (inl e) = absurd (cc e)
read-puts path bytes [] disk h (inr e) = e
read-puts path bytes ((p, content) ∷ files) disk h k = elim (Bool-cases (p == path)) [
  | inl f ↦
      let same : p ≡ path = (eq_iff p path).0 f in
      read-puts path bytes files (put p content disk) h.1
        (inr (rw (same, h.0 same) (read-put path bytes disk)))
  | inr f ↦ read-puts path bytes files (put p content disk) h.1 (passed f k)
]
  where
    passed :
        (p == path) ≡ false
        → (((p == path) || any (λ f. f.0 == path) files) ≡ true)
          ⊎ (read_file path disk ≡ some bytes)
        → (any (λ f. f.0 == path) files ≡ true) ⊎ (read_file path (put p content disk) ≡ some bytes)
    passed f (inl e) = inl (rw f at e)
    passed f (inr e) = inr (
        read-put_other path p content disk
          (λ q. let yes : (p == path) ≡ true = (eq_iff p path).1 (sym q) in cc (sym f ∙ yes))
        ∙ e)

pub All-imp :
    {A : Type 0} (P Q : A → Type 0) (xs : List A) → ((x : A) → P x → Q x) → All P xs → All Q xs
All-imp P Q [] i h = tt
All-imp P Q (x ∷ xs) i h = (i x h.0, All-imp P Q xs i h.1)

module _ {A : Type 0} (q : A → Bool) where
  any-insert_ordered :
      (before : A → A → Bool) (x : A) (ys : List A)
      → any q (insert_ordered before x ys) ≡ (q x || any q ys)
  unfolding insert_ordered
  any-insert_ordered before x [] = refl
  any-insert_ordered before x (y ∷ ys) = ground (arith, any-insert_ordered before x ys)

  any-order_by : (before : A → A → Bool) (xs : List A) → any q (order_by before xs) ≡ any q xs
  unfolding order_by
  any-order_by before [] = refl
  any-order_by before (x ∷ xs) =
      any-insert_ordered before x (order_by before xs) ∙ ap (λ b. q x || b) (any-order_by before xs)

any-filter :
    (p : Text → Bool) (path : Text) (xs : List Text)
    → p path ≡ true
    → any (λ x. x == path) (filter p xs) ≡ any (λ x. x == path) xs
any-filter p path [] h = refl
any-filter p path (x ∷ xs) h = elim (Bool-cases (x == path)) [
  | inl e ↦ let yes : p x ≡ true = rw ((eq_iff x path).0 e) h in rw (yes, e) refl
  | inr e ↦ elim (Bool-cases (p x)) [
    | inl f ↦ rw (f, e) (any-filter p path xs h)
    | inr f ↦ rw (f, e) (any-filter p path xs h)
  ]
]

any-names :
    (path : Text) (disk : Disk) {bytes : Bytes}
    → read_file path disk ≡ some bytes
    → any (λ x. x == path) (map (λ f. f.0) disk) ≡ true
unfolding read_file
any-names path [] h = absurd (cc h)
any-names path ((p, content) ∷ disk) h = elim (Bool-cases (p == path)) [
  | inl e ↦ rw e refl
  | inr e ↦ rw e (any-names path disk (rw e at h))
]

-- Walk comes to each file below the directory,
pub walk_complete :
    (dir path : Text) (disk : Disk) {bytes : Bytes}
    → read_file path disk ≡ some bytes
    → below dir path ≡ true
    → any (λ x. x == path) (walk dir disk) ≡ true
unfolding walk
walk_complete dir path disk h b =
    any-order_by _ _ _ ∙ any-filter (below dir) path (map (λ f. f.0) disk) b ∙ any-names path disk h

module _ (P : Text → Type 0) where
  names-All : (disk : Disk) → All (λ f. P f.0) disk → All P (map (λ f. f.0) disk)
  names-All [] h = tt
  names-All (f ∷ disk) h = (h.0, names-All disk h.1)

  filtered-All :
      (q : Text → Bool) (xs : List Text) → All P xs → All (λ x. P x × (q x ≡ true)) (filter q xs)
  filtered-All q [] h = tt
  filtered-All q (x ∷ xs) h = elim (Bool-cases (q x)) [
    | inl e ↦ rw e ((h.0, e), filtered-All q xs h.1)
    | inr e ↦ rw e (filtered-All q xs h.1)
  ]

  -- and to no other.
  pub walk-All :
      (dir : Text) (disk : Disk)
      → All (λ f. P f.0) disk
      → All (λ p. P p × (below dir p ≡ true)) (walk dir disk)
  unfolding walk
  walk-All dir disk h =
      order_by-All _ _ _ (filtered-All (below dir) (map (λ f. f.0) disk) (names-All disk h))

  removed-All :
      (path : Text) (disk : Disk) → All (λ f. P f.0) disk → All (λ f. P f.0) (remove_file path disk)
  unfolding remove_file
  removed-All path [] h = tt
  removed-All path ((p, bytes) ∷ disk) h = elim (Bool-cases (p == path)) [
    | inl e ↦ rw e (removed-All path disk h.1)
    | inr e ↦ rw e (h.0, removed-All path disk h.1)
  ]

  written-All :
      (path : Text) (bytes : Bytes) (disk : Disk)
      → P path
      → All (λ f. P f.0) disk
      → All (λ f. P f.0) (write_file path bytes disk)
  unfolding write_file
  written-All path bytes disk p h = (p, removed-All path disk h)

  pub puts-All :
      (files : List (Text × Bytes)) (disk : Disk)
      → All (λ f. P f.0) files
      → All (λ f. P f.0) disk
      → All (λ f. P f.0) (puts files disk)
  unfolding puts put
  puts-All [] disk k h = h
  puts-All ((p, bytes) ∷ files) disk k h =
      puts-All files (put p bytes disk) k.1
        (written-All p bytes (write_file p [] disk) k.0 (written-All p [] disk k.0 h))

  pub read-All :
      (path : Text) (disk : Disk) {bytes : Bytes}
      → All (λ f. P f.0) disk
      → read_file path disk ≡ some bytes
      → P path
  unfolding read_file
  read-All path [] h e = absurd (cc e)
  read-All path ((p, content) ∷ disk) h e = elim (Bool-cases (p == path)) [
    | inl f ↦ rw (← (eq_iff p path).0 f) h.0
    | inr f ↦ read-All path disk h.1 (rw f at e)
  ]

still_readable :
    (q : Text) (content : Bytes) (disk : Disk) (p : Text)
    → (b : Bytes) × (read_file p disk ≡ some b)
    → (b : Bytes) × (read_file p ((q, content) ∷ disk) ≡ some b)
unfolding read_file
still_readable q content disk p (b, e) = elim (Bool-cases (q == p)) [
  | inl f ↦ (content, rw f refl)
  | inr f ↦ (b, rw f e)
]

-- Every path on the disk can be read.
pub readable : (disk : Disk) → All (λ f. (b : Bytes) × (read_file f.0 disk ≡ some b)) disk
unfolding read_file
readable [] = tt
readable ((q, content) ∷ disk) = (
  (content, rw (eq_refl q) refl),
  All-imp _ _ disk (λ f. still_readable q content disk f.0) (readable disk),
)

-- Where something is known of each path and some content, these are put together.
pub paired :
    (Q : Text → Bytes → Type 0) (paths : List Text)
    → All (λ p. (b : Bytes) × Q p b) paths
    → (files : List (Text × Bytes)) × (map (λ f. f.0) files ≡ paths) × All (λ f. Q f.0 f.1) files
paired Q [] h = ([], refl, tt)
paired Q (p ∷ paths) h =
    let (files, e, k) = paired Q paths h.1 in ((p, h.0.0) ∷ files, rw e refl, (h.0.1, k))
