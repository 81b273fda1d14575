-- ===== src/Packet/Field.antt =====
-- The values that `operator<<` writes and `read` returns, as fields: a word of `n` bytes (an
-- unsigned integer or a float's bits), a vector of two or three floats, or a string.
pub mod Write
pub mod Read
use shinzui.Base.{ℕ, ◌<◌, ◌^◌, List, [], ◌∷◌, ◌++◌, length}
use shinzui.Packet.{Packet, Outcome, ok, ◌>>=◌, put, read, put_string, read_string}
use shinzui.Packet.Bytes.{le_bytes, AreBytes}

pub data Field : Type 0 where
  word : ℕ → ℕ → Field
  vec2 : ℕ → ℕ → Field
  vec3 : ℕ → ℕ → ℕ → Field
  string : List ℕ → Field

pub data Shape : Type 0 where
  word_shape : ℕ → Shape
  vec2_shape vec3_shape string_shape : Shape

abbrev pub shape : Field → Shape
shape (word n v) = word_shape n
shape (vec2 x y) = vec2_shape
shape (vec3 x y z) = vec3_shape
shape (string str) = string_shape

-- `operator<<` on `glm::vec2`, and on `glm::vec3`.
unfoldable pub put_vec2 : ℕ → ℕ → Packet → Outcome Packet
put_vec2 x y p = put 4 x p >>= put 4 y

unfoldable pub put_vec3 : ℕ → ℕ → ℕ → Packet → Outcome Packet
put_vec3 x y z p = put 4 x p >>= λ p'. put 4 y p' >>= put 4 z

unfoldable pub put_field : Field → Packet → Outcome Packet
put_field (word n v) p = put n v p
put_field (vec2 x y) p = put_vec2 x y p
put_field (vec3 x y z) p = put_vec3 x y z p
put_field (string str) p = put_string str p

-- `read<glm::vec2>` and `read<glm::vec3>`.
unfoldable pub read_vec2 : Packet → Outcome (Field × Packet)
read_vec2 p = do (x, p1) ← read 4 p; (y, p2) ← read 4 p1; ok (vec2 x y, p2)

unfoldable pub read_vec3 : Packet → Outcome (Field × Packet)
read_vec3 p = do (x, p1) ← read 4 p; (y, p2) ← read 4 p1; (z, p3) ← read 4 p2; ok (vec3 x y z, p3)

unfoldable pub read_field : Shape → Packet → Outcome (Field × Packet)
read_field (word_shape n) p = read n p >>= λ (v, p'). ok (word n v, p')
read_field vec2_shape p = read_vec2 p
read_field vec3_shape p = read_vec3 p
read_field string_shape p = read_string p >>= λ (str, p'). ok (string str, p')

unfoldable pub put_fields : List Field → Packet → Outcome Packet
put_fields [] p = ok p
put_fields (f ∷ fs) p = put_field f p >>= put_fields fs

unfoldable pub read_fields : List Shape → Packet → Outcome (List Field × Packet)
read_fields [] p = ok ([], p)
read_fields (s ∷ ss) p = do (f, p1) ← read_field s p; (fs, p2) ← read_fields ss p1; ok (f ∷ fs, p2)

-- The bytes of a field on the wire.
abbrev pub encode : Field → List ℕ
encode (word n v) = le_bytes n v
encode (vec2 x y) = le_bytes 4 x ++ le_bytes 4 y
encode (vec3 x y z) = le_bytes 4 x ++ (le_bytes 4 y ++ le_bytes 4 z)
encode (string str) = le_bytes 2 (length str) ++ str

abbrev pub encode_all : List Field → List ℕ
encode_all [] = []
encode_all (f ∷ fs) = encode f ++ encode_all fs

-- The value fits its type.
abbrev pub InRange : Field → Type 0
InRange (word n v) = v < 256 ^ n
InRange (vec2 x y) = (x < 256 ^ 4) × (y < 256 ^ 4)
InRange (vec3 x y z) = (x < 256 ^ 4) × (y < 256 ^ 4) × (z < 256 ^ 4)
InRange (string str) = (length str < 65536) × AreBytes str
