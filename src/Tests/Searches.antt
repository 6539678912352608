-- ===== src/Tests/Searches.antt =====
-- Runs of the search by meaning.
use my_personal_cloud.Prelude.{
  ℕ, ◌+◌, ◌*◌, ◌≡◌, refl, ◌==◌, false, List, [], ◌∷◌, some, codes, arith, ltb, nat_eq, none,
}
use my_personal_cloud.Sql.{order_by, insert_ordered}
use my_personal_cloud.World.{FileRow}
use my_personal_cloud.Ai.{Vector, encode_floats, decode_floats}
use my_personal_cloud.Ai.Search.{
  Floats, cosine_similarity, sums, Embedding, indexed_files, results, search,
}
use my_personal_cloud.Ai.Vectors.{decode-encode_floats}

-- Whole numbers in the place of floats, with the first argument for the quotient.
abbrev numbers : Floats
numbers = record {
  Float64 = ℕ;
  of_bits = λ n. n;
  to_bits = λ n. n;
  zero = 0;
  add = λ a b. a + b;
  multiply = λ a b. a * b;
  divide = λ a b. a;
  sqrt = λ a. a;
  is_zero = λ a. nat_eq a 0;
  exceeds = λ a b. ltb b a;
}

abbrev ones : Vector
ones = 1 ∷ 4294967295 ∷ []

decode-encode_floats_example : decode_floats (encode_floats ones) ≡ some ones
decode-encode_floats_example = decode-encode_floats ones (omega arith, (omega arith, tt))

abbrev text_file : FileRow
text_file = record {
  id = codes "f1";
  user_id = 1;
  name = codes "a.txt";
  parent_path = codes "/";
  storage_path = codes "1/u";
  mime_type = codes "text/plain";
  size_bytes = 3;
  is_image = false;
  created_at = 5;
  deleted_at = none;
}

abbrev files : List FileRow
files =
    text_file
    ∷ record text_file { id = codes "f2" }
    ∷ record text_file { id = codes "f3"; user_id = 2 }
    ∷ []

abbrev embeddings : List Embedding
embeddings =
    record { file_id = codes "f1"; embedding = encode_floats (1 ∷ 2 ∷ []) }
    ∷ record { file_id = codes "f2"; embedding = encode_floats (3 ∷ 4 ∷ []) }
    ∷ record { file_id = codes "f3"; embedding = encode_floats (5 ∷ 6 ∷ []) }
    ∷ []

search_run :
    (search numbers order_by 1 (1 ∷ 1 ∷ []) 1 files embeddings)
    ≡ record {
      file_id = codes "f2";
      name = codes "a.txt";
      parent_path = codes "/";
      mime_type = codes "text/plain";
      is_image = false;
      score = 7;
    }
      ∷ []
unfolding search results cosine_similarity sums indexed_files decode_floats encode_floats order_by
    insert_ordered ◌==◌
search_run = refl
