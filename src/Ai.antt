-- ===== src/Ai.antt =====
-- The search by meaning, internal/ai: the client of the embeddings service, the description of a
-- file, the stored form of vectors, and the search. A float32 is the number of its bits. The handlers
-- around them, which no route leads to, are left out.
pub mod Vectors
pub mod Search
use my_personal_cloud.Prelude.{
  ℕ, zero, suc, ◌+◌, ◌*◌, ◌/◌, ◌%◌, ◌++◌, ◌==◌, Bool, true, false, not, ◌&&◌, ◌||◌, List, [], ◌∷◌,
  Option, none, some, Text, codes, has_prefix, nat_eq, leb, ltb, length, take, map, if◌then◌else◌,
}
use my_personal_cloud.GoPath.{trim_slashes}

abbrev pub Vector : Type 0
Vector = List ℕ

abbrev pub Bytes : Type 0
Bytes = List ℕ

-- `binary.LittleEndian.PutUint32`
abbrev pub put_uint32 : ℕ → Bytes → Bytes
put_uint32 f rest = f % 256 ∷ (f / 256) % 256 ∷ (f / 65536) % 256 ∷ (f / 16777216) % 256 ∷ rest

-- `binary.LittleEndian.Uint32`
abbrev pub uint32 : ℕ → ℕ → ℕ → ℕ → ℕ
uint32 a b c d = a + b * 256 + c * 65536 + d * 16777216

-- `encodeFloats`
unfoldable pub encode_floats : Vector → Bytes
encode_floats [] = []
encode_floats (f ∷ v) = put_uint32 f (encode_floats v)

abbrev pub read_floats : Bytes → Vector
read_floats (a ∷ b ∷ c ∷ d ∷ bytes) = uint32 a b c d ∷ read_floats bytes
read_floats _ = []

-- `decodeFloats`
unfoldable pub decode_floats : Bytes → Option Vector
decode_floats bytes = if nat_eq (length bytes % 4) 0 then some (read_floats bytes) else none

-- `Client`
pub record Client : Type 0 where
  pub api_key : Text
  pub base_url : Text
  pub model : Text

abbrev pub default_base_url : Text
default_base_url = codes "https://api.deepseek.com/v1"

abbrev pub default_model : Text
default_model = codes "text-embedding-3-small"

-- `NewClient`
unfoldable pub new_client : Text → Text → Text → Client
new_client api_key base_url model = record {
  api_key = api_key;
  base_url = trim_slashes (if base_url == [] then default_base_url else base_url);
  model = if model == [] then default_model else model;
}

-- What the body of an answer is decoded to.
pub record Parsed : Type 0 where
  pub data_of : List Vector
  pub error_of : Option Text

-- The service: to an address, a key, a model and a text, an answer with its status and its decoded
-- body; none where the request fails or the body is not JSON.
abbrev pub Upstream : Type 0
Upstream = Text → Text → Text → Text → Option (ℕ × Option Parsed)

abbrev pub first_vector : List Vector → Option Vector
first_vector [] = none
first_vector ([] ∷ rest) = none
first_vector ((f ∷ v) ∷ rest) = some (f ∷ v)

abbrev pub vector_of : Option Text → List Vector → Option Vector
vector_of (some message) vectors = none
vector_of none vectors = first_vector vectors

abbrev pub of_body : Option Parsed → Option Vector
of_body none = none
of_body (some body) = vector_of body.error_of body.data_of

abbrev pub of_answer : Option (ℕ × Option Parsed) → Option Vector
of_answer none = none
of_answer (some (status, body)) = if leb 400 status then none else of_body body

-- `Client.Embed`; none is an error.
unfoldable pub embed : Upstream → Client → Text → Option Vector
embed upstream c [] = none
embed upstream c (x ∷ text) =
    of_answer (upstream (c.base_url ++ codes "/embeddings") c.api_key c.model (x ∷ text))

-- The loop of `readTextSnippet`: bytes are taken from the end until the rest is valid. `decode` is
-- none where `utf8.Valid` is false, and else the text.
abbrev pub or_shorter : Option Text → Text → Text
or_shorter none shorter = shorter
or_shorter (some text) shorter = text

unfoldable pub valid_text : (Bytes → Option Text) → ℕ → Bytes → Text
valid_text decode zero bytes = []
valid_text decode (suc n) bytes =
    or_shorter (decode (take (suc n) bytes)) (valid_text decode n bytes)

-- `readTextSnippet` of the contents of a file; none where it cannot be opened.
unfoldable pub read_text_snippet : (Bytes → Option Text) → Option Bytes → ℕ → Text
read_text_snippet decode none max_bytes = []
read_text_snippet decode (some bytes) max_bytes =
    let chunk = take max_bytes bytes in valid_text decode (length chunk) chunk

abbrev pub header : Text → Text → Text → Text
header name mime parent =
    codes "File name: " ++ name ++ codes "\nFolder: " ++ parent ++ codes "\nType: " ++ mime

abbrev pub is_text_like : Text → Bool
is_text_like low =
    has_prefix low (codes "text/")
    || low == codes "application/json"
    || low == codes "application/xml"

abbrev pub without_body : Text → Text → Text → Text → Text
without_body low name mime parent =
    if has_prefix low (codes "image/")
    then codes "Image file: " ++ name ++ codes "\nFolder: " ++ parent ++ codes "\nType: " ++ mime
    else header name mime parent

abbrev pub with_body : Text → Text → Text → Text → Text → Text
with_body [] low name mime parent = without_body low name mime parent
with_body (x ∷ body) low name mime parent =
    header name mime parent ++ codes "\nContent:\n" ++ x ∷ body

-- `buildDescription`; `to_lower` is `strings.ToLower`.
unfoldable pub build_description :
    (Text → Text) → (Bytes → Option Text) → Text → Text → Text → Option Bytes → Text
build_description to_lower decode name mime parent content =
    let low = to_lower mime in
    if is_text_like low
    then with_body (read_text_snippet decode content 4000) low name mime parent
    else without_body low name mime parent
