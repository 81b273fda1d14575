-- ===== src/Packet/Field/Read.antt =====
-- Reading the shapes of fields whose encodings stand at the read cursor gives the fields.
use mathlib.Core.List.{append_assoc}
use shinzui.Base.{ℕ, ◌+◌, ◌^◌, ◌<◌, ◌≡◌, refl, ◌∙◌, List, [], ◌∷◌, ◌++◌, map, arith, length, All}
use shinzui.Packet.{
  Packet, Outcome, ok, ◌>>=◌, u16, read, read_bytes, read_string, peek, peek_bytes,
}
use shinzui.Packet.Bytes.{le_bytes, length-le_bytes, of_le_bytes-le_bytes}
use shinzui.Packet.Cursor.{IsValid, Consumed, peek_bytes-unread, read-Consumed, unread}
use shinzui.Packet.Field.{
  Field, word, vec2, vec3, string, shape, read_field, read_fields, read_vec2, read_vec3, encode,
  encode_all, InRange,
}

-- The operation returns `a`, and leaves `rest` unread.
abbrev pub Reads : {A : Type 0} → Outcome (A × Packet) → A → List ℕ → Packet → Type 0
Reads m a rest p = (p' : Packet) × (m ≡ ok (a, p')) × Consumed rest p p'

Reads-bind :
    {A B : Type 0} (m : Outcome (A × Packet)) (k : A × Packet → Outcome (B × Packet)) (a : A)
    (b : B) (mid rest : List ℕ) (p : Packet)
    → Reads m a mid p
    → ((q : Packet) → IsValid q → unread q ≡ mid → Reads (k (a, q)) b rest q)
    → Reads (m >>= k) b rest p
Reads-bind m k a b mid rest p (q, e, c) next =
    let (r, e', c') = next q c.valid c.left in
    (
      r,
      rw e e',
      record { valid = c'.valid; left = c'.left; written_kept = c'.written_kept ∙ c.written_kept },
    )

Reads-map :
    {A B : Type 0} (m : Outcome (A × Packet)) (g : A → B) (a : A) (rest : List ℕ) (p : Packet)
    → Reads m a rest p
    → Reads (m >>= λ (x, q). ok (g x, q)) (g a) rest p
Reads-map m g a rest p (q, e, c) = (q, rw e refl, c)

read_bytes-Reads :
    (bs rest : List ℕ) (p : Packet)
    → IsValid p
    → unread p ≡ bs ++ rest
    → Reads (read_bytes (length bs) p) bs rest p
unfolding read_bytes
read_bytes-Reads bs rest p v e =
    (_, rw (peek_bytes-unread p bs rest v e) refl, read-Consumed p bs rest v e)

read-Reads :
    (n x : ℕ) (rest : List ℕ) (p : Packet)
    → x < 256 ^ n
    → IsValid p
    → unread p ≡ le_bytes n x ++ rest
    → Reads (read n p) x rest p
unfolding read peek
read-Reads n x rest p h v e = (
  record p { read = u16 (p.read + n) },
  rw (got, of_le_bytes-le_bytes n x h) refl,
  rw len at (read-Consumed p (le_bytes n x) rest v e),
)
  where
    len : length (le_bytes n x) ≡ n
    len = length-le_bytes n x

    got : peek_bytes n p.read p ≡ ok (le_bytes n x)
    got = rw len at (peek_bytes-unread p (le_bytes n x) rest v e)

read_string-Reads :
    (str rest : List ℕ) (p : Packet)
    → InRange (string str)
    → IsValid p
    → unread p ≡ encode (string str) ++ rest
    → Reads (read_string p) str rest p
unfolding read_string
read_string-Reads str rest p r v e =
    Reads-bind (read 2 p) _ (length str) str (str ++ rest) rest p
      (read-Reads 2 (length str) (str ++ rest) p (omega (arith, r.0)) v
        (e ∙ append_assoc (le_bytes 2 (length str)) str rest))
      (λ q vq eq. read_bytes-Reads str rest q vq eq)

read_vec2-Reads :
    (x y : ℕ) (rest : List ℕ) (p : Packet)
    → InRange (vec2 x y)
    → IsValid p
    → unread p ≡ encode (vec2 x y) ++ rest
    → Reads (read_vec2 p) (vec2 x y) rest p
unfolding read_vec2
read_vec2-Reads x y rest p r v e =
    Reads-bind (read 4 p) _ x (vec2 x y) (le_bytes 4 y ++ rest) rest p
      (read-Reads 4 x _ p r.0 v (e ∙ append_assoc (le_bytes 4 x) (le_bytes 4 y) rest))
      (λ q vq eq. Reads-map (read 4 q) (vec2 x) y rest q (read-Reads 4 y rest q r.1 vq eq))

read_vec3-Reads :
    (x y z : ℕ) (rest : List ℕ) (p : Packet)
    → InRange (vec3 x y z)
    → IsValid p
    → unread p ≡ encode (vec3 x y z) ++ rest
    → Reads (read_vec3 p) (vec3 x y z) rest p
unfolding read_vec3
read_vec3-Reads x y z rest p r v e =
    Reads-bind (read 4 p) _ x (vec3 x y z) ((le_bytes 4 y ++ le_bytes 4 z) ++ rest) rest p
      (read-Reads 4 x _ p r.0 v
        (e ∙ append_assoc (le_bytes 4 x) (le_bytes 4 y ++ le_bytes 4 z) rest))
      (λ q vq eq.
        Reads-bind (read 4 q) _ y (vec3 x y z) (le_bytes 4 z ++ rest) rest q
          (read-Reads 4 y _ q r.1 vq (eq ∙ append_assoc (le_bytes 4 y) (le_bytes 4 z) rest))
          (λ q' vq' eq'.
            Reads-map (read 4 q') (vec3 x y) z rest q' (read-Reads 4 z rest q' r.2 vq' eq')))

pub read_field-Reads :
    (f : Field) (rest : List ℕ) (p : Packet)
    → InRange f
    → IsValid p
    → unread p ≡ encode f ++ rest
    → Reads (read_field (shape f) p) f rest p
unfolding read_field
read_field-Reads (word n x) rest p r v e =
    Reads-map (read n p) (word n) x rest p (read-Reads n x rest p r v e)
read_field-Reads (vec2 x y) rest p r v e = read_vec2-Reads x y rest p r v e
read_field-Reads (vec3 x y z) rest p r v e = read_vec3-Reads x y z rest p r v e
read_field-Reads (string str) rest p r v e =
    Reads-map (read_string p) string str rest p (read_string-Reads str rest p r v e)

-- In a well-formed packet, if the bytes not yet read begin with the encodings of fields that fit
-- their types, reading their shapes succeeds, gives exactly these fields and leaves the bytes
-- behind them.
pub read_fields-Reads :
    (fs : List Field) (rest : List ℕ) (p : Packet)
    → All InRange fs
    → IsValid p
    → unread p ≡ encode_all fs ++ rest
    → (p' : Packet) × (read_fields (map shape fs) p ≡ ok (fs, p')) × Consumed rest p p'
unfolding read_fields
read_fields-Reads [] rest p r v e = (p, refl, record { valid = v; left = e; written_kept = refl })
read_fields-Reads (f ∷ fs) rest p r v e =
    Reads-bind (read_field (shape f) p) _ f (f ∷ fs) (encode_all fs ++ rest) rest p
      (read_field-Reads f _ p r.0 v (e ∙ append_assoc (encode f) (encode_all fs) rest))
      (λ q vq eq.
        Reads-map (read_fields (map shape fs) q) (λ gs. f ∷ gs) fs rest q
          (read_fields-Reads fs rest q r.1 vq eq))
