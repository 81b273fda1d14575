-- ===== src/Packet/Field/Write.antt =====
-- Writing a field appends its encoding, if that fits.
use mathlib.Core.List.{append-nil}
use shinzui.Base.{
  ℕ, ◌+◌, ◌≤◌, ◌≡◌, refl, sym, List, [], ◌∷◌, ◌++◌, arith, length, take_all, length-append, All,
}
use shinzui.Packet.{Packet, Outcome, ok, ◌>>=◌, capacity, put, put_chars, put_string, u16}
use shinzui.Packet.Bytes.{le_bytes, one_byte, AreBytes}
use shinzui.Packet.Cursor.{IsValid, Wrote, Wrote-trans, put_bytes-Wrote}
use shinzui.Packet.Field.{
  Field, word, vec2, vec3, string, put_field, put_fields, put_vec2, put_vec3, encode, encode_all,
  InRange,
}

-- The operation succeeds and appends `bs`.
abbrev pub Writes : Outcome Packet → List ℕ → Packet → Type 0
Writes m bs p = (p' : Packet) × (m ≡ ok p') × Wrote bs p p'

abbrev Fits : List ℕ → Packet → Type 0
Fits bs p = p.write + length bs ≤ capacity

Writes-bind :
    (m : Outcome Packet) (k : Packet → Outcome Packet) (cs bs : List ℕ) (p : Packet)
    → Writes m cs p
    → Fits (cs ++ bs) p
    → ((q : Packet) → IsValid q → Fits bs q → Writes (k q) bs q)
    → Writes (m >>= k) (cs ++ bs) p
Writes-bind m k cs bs p (q, e, w) h rest =
    let (r, e', w') = rest q w.valid (omega (arith, w.write_moved, length-append cs bs)) in
    (r, rw e e', Wrote-trans w w')

put-Writes :
    (n v : ℕ) (p : Packet) → IsValid p → Fits (le_bytes n v) p → Writes (put n v p) (le_bytes n v) p
unfolding put
put-Writes n v p = put_bytes-Wrote (le_bytes n v) p

Writes-nil : (p : Packet) → IsValid p → Writes (ok p) [] p
Writes-nil p v = (
  p,
  refl,
  record {
    valid = v;
    appended = sym (append-nil _);
    write_moved = omega arith;
    read_kept = refl;
    size_kept = refl;
    refs_kept = refl;
  },
)

Fits-left : (cs bs : List ℕ) (p : Packet) → Fits (cs ++ bs) p → Fits cs p
Fits-left cs bs p h = omega (arith, length-append cs bs)

put_chars-Writes :
    (cs : List ℕ) (p : Packet) → AreBytes cs → IsValid p → Fits cs p → Writes (put_chars cs p) cs p
unfolding put_chars
put_chars-Writes [] p b v h = Writes-nil p v
put_chars-Writes (c ∷ cs) p b v h =
    Writes-bind (put 1 c p) (put_chars cs) (c ∷ []) cs p
      (rw byte at (put-Writes 1 c p v (rw byte (omega arith)))) h
      (λ q vq hq. put_chars-Writes cs q b.1 vq hq)
  where
    byte : le_bytes 1 c ≡ c ∷ []
    byte = one_byte c b.0

put_string-Writes :
    (str : List ℕ) (p : Packet)
    → InRange (string str)
    → IsValid p
    → Fits (encode (string str)) p
    → Writes (put_string str p) (encode (string str)) p
unfolding put_string
put_string-Writes str p r v h =
    rw (short, take_all (length str) str (omega arith))
      (Writes-bind (put 2 (length str) p) (put_chars str) (le_bytes 2 (length str)) str p
        (put-Writes 2 (length str) p v (Fits-left _ str p h)) h
        (λ q vq hq. put_chars-Writes str q r.1 vq hq))
  where
    short : u16 (length str) ≡ length str
    short = omega (arith, r.0)

pub put_field-Writes :
    (f : Field) (p : Packet)
    → InRange f
    → IsValid p
    → Fits (encode f) p
    → Writes (put_field f p) (encode f) p
unfolding put_field put_vec2 put_vec3
put_field-Writes (word n v) p r w h = put-Writes n v p w h
put_field-Writes (vec2 x y) p r w h =
    Writes-bind (put 4 x p) (put 4 y) (le_bytes 4 x) (le_bytes 4 y) p
      (put-Writes 4 x p w (Fits-left _ (le_bytes 4 y) p h)) h (λ q vq hq. put-Writes 4 y q vq hq)
put_field-Writes (vec3 x y z) p r w h =
    Writes-bind (put 4 x p) (λ p'. put 4 y p' >>= put 4 z) (le_bytes 4 x) _ p
      (put-Writes 4 x p w (Fits-left _ (le_bytes 4 y ++ le_bytes 4 z) p h)) h
      (λ q vq hq.
        Writes-bind (put 4 y q) (put 4 z) (le_bytes 4 y) (le_bytes 4 z) q
          (put-Writes 4 y q vq (Fits-left _ (le_bytes 4 z) q hq)) hq
          (λ q' vq' hq'. put-Writes 4 z q' vq' hq'))
put_field-Writes (string str) p r w h = put_string-Writes str p r w h

-- In a well-formed packet, writing fields that fit their types and, together, the buffer,
-- succeeds; it appends their encodings in order to what was written, and moves no cursor but
-- `_write`.
pub put_fields-Writes :
    (fs : List Field) (p : Packet)
    → All InRange fs
    → IsValid p
    → p.write + length (encode_all fs) ≤ capacity
    → (p' : Packet) × (put_fields fs p ≡ ok p') × Wrote (encode_all fs) p p'
unfolding put_fields
put_fields-Writes [] p r v h = Writes-nil p v
put_fields-Writes (f ∷ fs) p r v h =
    Writes-bind (put_field f p) (put_fields fs) (encode f) (encode_all fs) p
      (put_field-Writes f p r.0 v (Fits-left (encode f) (encode_all fs) p h)) h
      (λ q vq hq. put_fields-Writes fs q r.1 vq hq)
