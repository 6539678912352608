-- ===== src/Ai/Vectors.antt =====
-- Vectors that are stored and read.
use my_personal_cloud.Prelude.{
  ℕ, ◌*◌, ◌%◌, ◌/◌, ◌<◌, ◌≡◌, refl, [], ◌∷◌, some, arith, All, length, nat_eq, true,
}
use my_personal_cloud.Ai.{Vector, uint32, read_floats, encode_floats, decode_floats}

-- The numbers of 32 bits.
abbrev pub IsFloat : ℕ → Type 0
IsFloat f = f < 4294967296

uint32-put :
    (f : ℕ)
    → IsFloat f
    → uint32 (f % 256) ((f / 256) % 256) ((f / 65536) % 256) ((f / 16777216) % 256) ≡ f
uint32-put f h = omega arith

read-encode : (v : Vector) → All IsFloat v → read_floats (encode_floats v) ≡ v
unfolding encode_floats
read-encode [] h = refl
read-encode (f ∷ v) h = rw (uint32-put f h.0, read-encode v h.1) refl

length-encode : (v : Vector) → length (encode_floats v) ≡ 4 * length v
unfolding encode_floats
length-encode [] = refl
length-encode (f ∷ v) = omega (arith, length-encode v)

-- A vector of float32 numbers, the infinite ones and those that are no numbers included, that is
-- stored is read bit by bit as it was.
pub decode-encode_floats : (v : Vector) → All IsFloat v → decode_floats (encode_floats v) ≡ some v
unfolding decode_floats
decode-encode_floats v h =
    let whole : nat_eq (length (encode_floats v) % 4) 0 ≡ true =
      rw (length-encode v) (ground arith) in
    rw (whole, read-encode v h) refl
