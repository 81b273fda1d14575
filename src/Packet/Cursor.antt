-- ===== src/Packet/Cursor.antt =====
-- What the cursors of a packet delimit: the bytes written, and those not yet read. A write within
-- the capacity appends to the first, a read takes from the front of the second.
use mathlib.Core.List.{append_assoc}
use Prim.Native.Nat.{max}
use shinzui.Base.{
  ℕ, ◌+◌, ◌-◌, ◌≤◌, ◌<◌, ◌≡◌, ◌↔◌, refl, sym, ap, ◌∙◌, List, ◌++◌, arith, length, take, drop,
  length-take, length-drop, length-append, take-append, drop-append, drop-drop, take-drop-take,
}
use shinzui.Packet.{
  Packet, ok, read_out_of_bounds, overflow, capacity, u16, put_bytes, peek_bytes, store_at,
  buffer_len,
}

pub record IsValid (p : Packet) : Type 0 where
  pub whole : length p.buffer ≡ capacity
  pub write_in : p.write ≤ capacity
  pub size_in : p.size ≤ capacity
  pub read_in : p.read ≤ max p.size p.write

abbrev pub written : Packet → List ℕ
written p = take p.write p.buffer

abbrev pub unread : Packet → List ℕ
unread p = drop p.read (take (max p.size p.write) p.buffer)

length-store_at :
    (i : ℕ) (bs buffer : List ℕ)
    → i + length bs ≤ length buffer
    → length (store_at i bs buffer) ≡ length buffer
unfolding store_at
length-store_at i bs buffer h = omega (
  arith,
  length-append (take i buffer) (bs ++ drop (i + length bs) buffer),
  length-append bs (drop (i + length bs) buffer),
  length-take i buffer,
  length-drop (i + length bs) buffer,
)

take-store_at :
    (i : ℕ) (bs buffer : List ℕ)
    → i + length bs ≤ length buffer
    → take (i + length bs) (store_at i bs buffer) ≡ take i buffer ++ bs
unfolding store_at
take-store_at i bs buffer h = rw (← append_assoc (take i buffer) bs (drop (i + length bs) buffer)) (
    take-append (i + length bs) (take i buffer ++ bs) _
      (omega (arith, length-append (take i buffer) bs, length-take i buffer)))

-- What a write leaves: it appends `bs` to what is written, and moves no other cursor.
pub record Wrote (bs : List ℕ) (p p' : Packet) : Type 0 where
  pub valid : IsValid p'
  pub appended : written p' ≡ written p ++ bs
  pub write_moved : p'.write ≡ p.write + length bs
  pub read_kept : p'.read ≡ p.read
  pub size_kept : p'.size ≡ p.size
  pub refs_kept : p'.refs ≡ p.refs

pub put_bytes-Wrote :
    (bs : List ℕ) (p : Packet)
    → IsValid p
    → p.write + length bs ≤ capacity
    → (p' : Packet) × (put_bytes bs p ≡ ok p') × Wrote bs p p'
unfolding put_bytes
put_bytes-Wrote bs p v h = (
  record p { buffer = store_at p.write bs p.buffer; write = u16 (p.write + length bs) },
  ground arith,
  record {
    valid = record {
      whole = rw (length-store_at p.write bs p.buffer (omega arith)) v.whole;
      write_in = omega arith;
      size_in = v.size_in;
      read_in = omega arith;
    };
    appended = rw moved (take-store_at p.write bs p.buffer (omega arith));
    write_moved = moved;
    read_kept = refl;
    size_kept = refl;
    refs_kept = refl;
  },
)
  where
    moved : u16 (p.write + length bs) ≡ p.write + length bs
    moved = omega arith

-- A write of more bytes than the buffer has left is not refused: it goes beyond the buffer.
pub put_bytes-overflow :
    (bs : List ℕ) (p : Packet) → capacity < p.write + length bs → put_bytes bs p ≡ overflow
unfolding put_bytes
put_bytes-overflow bs p h = ground arith

pub Wrote-trans :
    {cs bs : List ℕ} {p q r : Packet} → Wrote cs p q → Wrote bs q r → Wrote (cs ++ bs) p r
Wrote-trans {cs} {bs} {p} {q} {r} f g = record {
  valid = g.valid;
  appended = g.appended ∙ ap (λ xs. xs ++ bs) f.appended ∙ append_assoc (written p) cs bs;
  write_moved = omega (arith, length-append cs bs, f.write_moved, g.write_moved);
  read_kept = g.read_kept ∙ f.read_kept;
  size_kept = g.size_kept ∙ f.size_kept;
  refs_kept = g.refs_kept ∙ f.refs_kept;
}

-- What a read leaves: `rest` is not yet read, and all else is kept.
pub record Consumed (rest : List ℕ) (p p' : Packet) : Type 0 where
  pub valid : IsValid p'
  pub left : unread p' ≡ rest
  pub written_kept : written p' ≡ written p

length-unread : (p : Packet) → IsValid p → length (unread p) ≡ max p.size p.write - p.read
length-unread p v = omega (
  arith,
  length-drop p.read (take (max p.size p.write) p.buffer),
  length-take (max p.size p.write) p.buffer,
  v.whole,
  v.write_in,
  v.size_in,
)

module _ (p : Packet) (bs rest : List ℕ) (v : IsValid p) (e : unread p ≡ bs ++ rest) where
  fits : p.read + length bs ≤ max p.size p.write
  fits = omega (arith, length-unread p v, ap length e, length-append bs rest, v.read_in)

  pub peek_bytes-unread : peek_bytes (length bs) p.read p ≡ ok bs
  unfolding peek_bytes buffer_len
  peek_bytes-unread = ground (
    arith,
    fits,
    v.write_in,
    v.size_in,
    sym (take-drop-take p.read (length bs) (max p.size p.write) p.buffer fits)
        ∙ ap (take (length bs)) e
        ∙ take-append (length bs) bs rest refl,
  )

  pub read-Consumed : Consumed rest p (record p { read = u16 (p.read + length bs) })
  read-Consumed = record {
    valid = record {
      whole = v.whole;
      write_in = v.write_in;
      size_in = v.size_in;
      read_in = omega (arith, fits, v.write_in, v.size_in);
    };
    left = rw moved (
        sym (drop-drop p.read (length bs) (take (max p.size p.write) p.buffer))
        ∙ ap (drop (length bs)) e
        ∙ drop-append (length bs) bs rest refl);
    written_kept = refl;
  }
    where
      moved : u16 (p.read + length bs) ≡ p.read + length bs
      moved = omega (arith, fits, v.write_in, v.size_in)

-- In a well-formed packet, a read of `n` bytes at the cursor throws exactly if fewer than `n`
-- bytes are not yet read.
pub peek_bytes-throws_iff :
    (n : ℕ) (p : Packet)
    → IsValid p
    → (peek_bytes n p.read p ≡ read_out_of_bounds) ↔ (length (unread p) < n)
unfolding peek_bytes buffer_len
peek_bytes-throws_iff n p v = (
  λ h. ground (arith, length-unread p v, v.read_in),
  λ h. ground (arith, length-unread p v, v.read_in),
)
