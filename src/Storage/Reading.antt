-- ===== src/Storage/Reading.antt =====
-- What is read of a file when others are written or removed.
use my_personal_cloud.Prelude.{
  ℕ, ◌≡◌, ◌≢◌, refl, sym, ◌==◌, eq_iff, eq_false, inl, inr, Bool, true, false, List, [], ◌∷◌, Text,
  Bool-cases, filter,
}
use my_personal_cloud.World.{Disk}
use my_personal_cloud.Storage.{read_file, remove_file, write_file}

pub read-remove_other :
    (path other : Text) (disk : Disk)
    → path ≢ other
    → read_file path (remove_file other disk) ≡ read_file path disk
unfolding read_file remove_file
read-remove_other path other [] e = refl
read-remove_other path other ((p, bytes) ∷ disk) e = elim (Bool-cases (p == other)) [
  | inl f ↦
      let q : p ≡ other = (eq_iff p other).0 f in
      let no : (p == path) ≡ false = rw q (eq_false other path (λ h. e (sym h))) in
      rw (f, no) (read-remove_other path other disk e)
  | inr f ↦ rw f (elim (Bool-cases (p == path)) [
    | inl g ↦ rw g refl
    | inr g ↦ rw g (read-remove_other path other disk e)
  ])
]

pub read-write_other :
    (path other : Text) (bytes : List ℕ) (disk : Disk)
    → path ≢ other
    → read_file path (write_file other bytes disk) ≡ read_file path disk
unfolding read_file write_file
read-write_other path other bytes disk e =
    rw (eq_false other path (λ h. e (sym h))) (read-remove_other path other disk e)

-- A file that is not removed.
pub read-filter :
    (p : Text × List ℕ → Bool) (path : Text) (disk : Disk)
    → ((bytes : List ℕ) → p (path, bytes) ≡ true)
    → read_file path (filter p disk) ≡ read_file path disk
unfolding read_file
read-filter p path [] h = refl
read-filter p path ((q, bytes) ∷ disk) h = elim (Bool-cases (q == path)) [
  | inl f ↦
      let same : q ≡ path = (eq_iff q path).0 f in
      let stays : p (q, bytes) ≡ true = rw same (h bytes) in rw (stays, f) refl
  | inr f ↦ elim (Bool-cases (p (q, bytes))) [
    | inl g ↦ rw (g, f) (read-filter p path disk h)
    | inr g ↦ rw (g, f) (read-filter p path disk h)
  ]
]
