-- ===== src/Ai/Search.antt =====
-- SearchHandler of internal/ai/service.go behind the embedding of the query: the join of files and
-- stored vectors, and the ranking.
use my_personal_cloud.Prelude.{
  ℕ, ◌==◌, ◌++◌, Bool, true, false, ◌&&◌, ◌||◌, not, List, [], ◌∷◌, Option, none, some, Text,
  nat_eq, leb, ltb, length, take, if◌then◌else◌,
}
use my_personal_cloud.World.{FileRow}
use my_personal_cloud.Ai.{Vector, Bytes, decode_floats}

-- A row of `file_embeddings`, as far as the search reads it.
pub record Embedding : Type 0 where
  pub file_id : Text
  pub embedding : Bytes

-- `score` has the bits of the float.
pub record SearchResult : Type 0 where
  pub file_id : Text
  pub name : Text
  pub parent_path : Text
  pub mime_type : Text
  pub is_image : Bool
  pub score : ℕ

abbrev pub accepted : Option (Bool × ℕ) → ℕ
accepted none = 20
accepted (some (true, n)) = 20
accepted (some (false, n)) = if ltb 0 n && leb n 200 then n else 20

-- The limit that the request asks for; `scan` is `fmt.Sscanf` with "%d": none where it fails, or
-- whether the number is negative and its size.
unfoldable pub limit_of : (Text → Option (Bool × ℕ)) → Text → ℕ
limit_of scan [] = 20
limit_of scan (x ∷ text) = accepted (scan (x ∷ text))

abbrev pub with_file : FileRow → List Embedding → List (FileRow × Bytes)
with_file f [] = []
with_file f (e ∷ embeddings) =
    let rest = with_file f embeddings in if e.file_id == f.id then (f, e.embedding) ∷ rest else rest

-- The join of the user's files with their vectors.
unfoldable pub indexed_files : ℕ → List FileRow → List Embedding → List (FileRow × Bytes)
indexed_files user_id [] embeddings = []
indexed_files user_id (f ∷ files) embeddings =
    let rest = indexed_files user_id files embeddings in
    if nat_eq f.user_id user_id then with_file f embeddings ++ rest else rest

-- The floats of math: those of 64 bits, and the conversions from and to the bits of 32.
pub record Floats : Type 1 where
  pub Float64 : Type 0
  pub of_bits : ℕ → Float64
  pub to_bits : Float64 → ℕ
  pub zero : Float64
  pub add : Float64 → Float64 → Float64
  pub multiply : Float64 → Float64 → Float64
  pub divide : Float64 → Float64 → Float64
  pub sqrt : Float64 → Float64
  pub is_zero : Float64 → Bool
  pub exceeds : ℕ → ℕ → Bool

module _ (floats : Floats) where
  -- The loop of `cosineSimilarity`: the sum of products and the two sums of squares.
  unfoldable pub sums :
      floats.Float64 × floats.Float64 × floats.Float64
      → Vector
      → Vector
      → floats.Float64 × floats.Float64 × floats.Float64
  sums (dot, na, nb) (a ∷ v) (b ∷ w) =
      let x = floats.of_bits a in
      let y = floats.of_bits b in
      sums
        (
          floats.add dot (floats.multiply x y),
          floats.add na (floats.multiply x x),
          floats.add nb (floats.multiply y y),
        )
        v w
  sums totals _ _ = totals

  abbrev pub quotient : floats.Float64 × floats.Float64 × floats.Float64 → ℕ
  quotient (dot, na, nb) =
      if floats.is_zero na || floats.is_zero nb
      then 0
      else floats.to_bits (floats.divide dot (floats.multiply (floats.sqrt na) (floats.sqrt nb)))

  -- `cosineSimilarity`: the bits of the result; those of zero are 0.
  unfoldable pub cosine_similarity : Vector → Vector → ℕ
  cosine_similarity a b =
      if not (nat_eq (length a) (length b))
      then 0
      else quotient (sums (floats.zero, floats.zero, floats.zero) a b)

abbrev pub result_of : FileRow → ℕ → SearchResult
result_of f score = record {
  file_id = f.id;
  name = f.name;
  parent_path = f.parent_path;
  mime_type = f.mime_type;
  is_image = f.is_image;
  score = score;
}

-- `sort` is `sort.Slice`, of which a concrete order of equal or unordered scores is not known.
module _ (floats : Floats)
    (sort : (SearchResult → SearchResult → Bool) → List SearchResult → List SearchResult) where
  -- A row whose vector cannot be decoded or has another length is passed over.
  abbrev pub add_result : Vector → FileRow → Option Vector → List SearchResult → List SearchResult
  add_result query f none rest = rest
  add_result query f (some v) rest =
      if nat_eq (length v) (length query)
      then result_of f (cosine_similarity floats query v) ∷ rest
      else rest

  unfoldable pub results : Vector → List (FileRow × Bytes) → List SearchResult
  results query [] = []
  results query ((f, blob) ∷ rows) = add_result query f (decode_floats blob) (results query rows)

  unfoldable pub search : ℕ → Vector → ℕ → List FileRow → List Embedding → List SearchResult
  search limit query user_id files embeddings = take limit (
      sort (λ a b. floats.exceeds a.score b.score)
        (results query (indexed_files user_id files embeddings)))
