-- ===== src/Packet/Fifo.antt =====
-- A packet as a queue of bytes: what `operator<<` and `read` promise, whatever the order in which they
-- are called.
use Prim.Native.Nat.{max}
use shinzui.Base.{
  ℕ, ◌+◌, ◌-◌, ◌≤◌, ◌<◌, ◌≡◌, refl, sym, ap, ap₂, ◌∙◌, List, [], ◌∷◌, ◌++◌, leb, if◌then◌else◌,
  Bool-cases, inl, inr, arith, length, take, drop, take-drop_split, drop-append_le, length-take,
}
use shinzui.Packet.{
  Packet, Outcome, ok, read_out_of_bounds, overflow, ◌>>=◌, capacity, u16, put_bytes, read_bytes,
}
use shinzui.Packet.Cursor.{
  IsValid, Wrote, put_bytes-Wrote, put_bytes-overflow, unread, written, peek_bytes-unread,
  read-Consumed, peek_bytes-throws_iff,
}

-- A write of some bytes, and a read of `n` bytes.
pub data Command : Type 0 where
  puts : List ℕ → Command
  takes : ℕ → Command

-- What the reads of some commands answer.
unfoldable pub run : List Command → Packet → Outcome (List (List ℕ))
run [] p = ok []
run (puts bs ∷ cs) p = put_bytes bs p >>= run cs
run (takes n ∷ cs) p = read_bytes n p >>= λ (bs, p'). run cs p' >>= λ out. ok (bs ∷ out)

-- The same of a queue of bytes, and the room that is left in it.
unfoldable pub run_fifo : List Command → List ℕ → ℕ → Outcome (List (List ℕ))
run_fifo [] q room = ok []
run_fifo (puts bs ∷ cs) q room =
    let rest = run_fifo cs (q ++ bs) (room - length bs) in
    if leb (length bs) room then rest else overflow
run_fifo (takes n ∷ cs) q room =
    let rest = run_fifo cs (drop n q) room in
    if leb n (length q) then (rest >>= λ out. ok (take n q ∷ out)) else read_out_of_bounds

-- A packet that is written and read, not received: its cursors are in order.
pub record IsOpen (p : Packet) : Type 0 where
  pub valid : IsValid p
  pub unsized : p.size ≤ p.write

unread-Wrote : (bs : List ℕ) (p p' : Packet) → IsOpen p → Wrote bs p p' → unread p' ≡ unread p ++ bs
unread-Wrote bs p p' o w =
    rw (limit', limit, w.read_kept, w.appended)
      (drop-append_le p.read (written p) bs (
        omega (
          arith,
          length-take p.write p.buffer,
          o.valid.whole,
          o.valid.write_in,
          o.valid.read_in,
          o.unsized,
        )))
  where
    limit' : max p'.size p'.write ≡ p'.write
    limit' = omega (arith, w.size_kept, w.write_moved, o.unsized)

    limit : max p.size p.write ≡ p.write
    limit = omega (arith, o.unsized)

Wrote-IsOpen : (bs : List ℕ) (p p' : Packet) → IsOpen p → Wrote bs p p' → IsOpen p'
Wrote-IsOpen bs p p' o w = record {
  valid = w.valid;
  unsized = omega (arith, w.size_kept, w.write_moved, o.unsized);
}

-- A read of `n` bytes where there are as many.
read_bytes-unread :
    (n : ℕ) (p : Packet)
    → IsOpen p
    → n ≤ length (unread p)
    → (p' : Packet) × (read_bytes n p ≡ ok (take n (unread p), p'))
      × IsOpen p'
      × (unread p' ≡ drop n (unread p))
      × (p'.write ≡ p.write)
unfolding read_bytes
read_bytes-unread n p o h =
    let e = sym (take-drop_split n (unread p)) in
    let m : length (take n (unread p)) ≡ n = omega (arith, length-take n (unread p)) in
    let c = read-Consumed p (take n (unread p)) (drop n (unread p)) o.valid e in
    let k = peek_bytes-unread p (take n (unread p)) (drop n (unread p)) o.valid e in
    (
      record p { read = u16 (p.read + length (take n (unread p))) },
      ap (λ i. read_bytes i p) (sym m)
          ∙ ap
              (λ r.
                r >>= λ bs. ok (bs, record p { read = u16 (p.read + length (take n (unread p))) }))
              k,
      record { valid = c.valid; unsized = o.unsized },
      c.left,
      refl,
    )

read_bytes-throws :
    (n : ℕ) (p : Packet) → IsOpen p → length (unread p) < n → read_bytes n p ≡ read_out_of_bounds
unfolding read_bytes
read_bytes-throws n p o h = rw ((peek_bytes-throws_iff n p o.valid).1 h) refl

-- A well-formed packet in which no more was received than is written behaves, whatever is then
-- written and read and in whatever order, as a queue of bytes with room for what is left of its
-- 1024 bytes: the reads answer the bytes that were written first and not yet read, a read of more
-- than there are throws, and a write that has no room is beyond the buffer.
pub run-run_fifo :
    (cs : List Command) (p : Packet)
    → IsOpen p
    → run cs p ≡ run_fifo cs (unread p) (capacity - p.write)
unfolding run run_fifo
run-run_fifo [] p o = refl
run-run_fifo (puts bs ∷ cs) p o = elim (Bool-cases (leb (length bs) (capacity - p.write))) [
  | inl room ↦
      let (p', e, w) = put_bytes-Wrote bs p o.valid (ground (arith, room, o.valid.write_in)) in
      rw (room, e)
        (run-run_fifo cs p' (Wrote-IsOpen bs p p' o w)
          ∙ ap₂ (run_fifo cs) (unread-Wrote bs p p' o w) (omega (arith, w.write_moved)))
  | inr full ↦ rw (full, put_bytes-overflow bs p (ground (arith, full))) refl
]
run-run_fifo (takes n ∷ cs) p o = elim (Bool-cases (leb n (length (unread p)))) [
  | inl enough ↦
      let (p', e, o', left, same) = read_bytes-unread n p o (ground (arith, enough)) in
      rw (enough, e)
        (ap (λ r. r >>= λ out. ok (take n (unread p) ∷ out))
          (run-run_fifo cs p' o' ∙ ap₂ (run_fifo cs) left (ap (λ w. capacity - w) same)))
  | inr few ↦ rw (few, read_bytes-throws n p o (ground (arith, few))) refl
]
