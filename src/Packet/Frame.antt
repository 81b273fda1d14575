-- ===== src/Packet/Frame.antt =====
-- Whole packets: what is written can be read back, and what `sendBuffer` gives to the socket.
use Prim.Native.Nat.{max}
use native.Mathlib.Nat.{suc-add, zero-add}
use mathlib.Core.List.{append_assoc, append-nil}
use shinzui.Base.{
  ℕ, zero, suc, ◌+◌, ◌-◌, ◌≤◌, ◌≡◌, refl, sym, ap, ◌∙◌, List, [], ◌∷◌, ◌++◌, map, arith, length,
  take, length-append, All, drop, drop-append, length-take, take-append, drop-drop,
}
use shinzui.Packet.{
  Packet, Outcome, ok, ◌>>=◌, capacity, u16, create, create_empty, put, store_at, send_buffer,
}
use shinzui.Packet.Bytes.{le_bytes, length-le_bytes}
use shinzui.Packet.Cursor.{IsValid, Wrote, Wrote-trans, put_bytes-Wrote, unread, written}
use shinzui.Packet.Field.{Field, shape, put_fields, read_fields, encode_all, InRange}
use shinzui.Packet.Field.Write.{put_fields-Writes}
use shinzui.Packet.Field.Read.{read_fields-Reads}

-- Nothing is received in the packet, and all that is written is read.
pub record IsFlushed (p : Packet) : Type 0 where
  pub valid : IsValid p
  pub unsized : p.size ≤ p.write
  pub all_read : p.read ≡ p.write

unread-Wrote : (bs : List ℕ) (p p' : Packet) → IsFlushed p → Wrote bs p p' → unread p' ≡ bs
unread-Wrote bs p p' f w =
    rw (limit, start, w.appended)
      (drop-append p.write (written p) bs (omega (arith, length-take p.write p.buffer, f.valid)))
  where
    limit : max p'.size p'.write ≡ p'.write
    limit = omega (arith, w.size_kept, w.write_moved, f.unsized)

    start : p'.read ≡ p.write
    start = w.read_kept ∙ f.all_read

-- Fields that fit their types and the buffer can be written to a well-formed packet in which
-- nothing is left to read; then reading their shapes gives them back, and nothing is left again.
pub read_fields-put_fields :
    (fs : List Field) (p : Packet)
    → All InRange fs
    → IsFlushed p
    → p.write + length (encode_all fs) ≤ capacity
    → (p' p'' : Packet) × (put_fields fs p ≡ ok p')
      × (read_fields (map shape fs) p' ≡ ok (fs, p''))
      × (unread p'' ≡ [])
read_fields-put_fields fs p r f h =
    let (p', e, w) = put_fields-Writes fs p r f.valid h in
    let (p'', e', c) =
      read_fields-Reads fs [] p' r w.valid
        (unread-Wrote (encode_all fs) p p' f w ∙ sym (append-nil _)) in
    (p', p'', e, e', c.left)

-- `create(opcode)`, the `<<` of some fields, and `sendBuffer`.
unfoldable pub message : List ℕ → ℕ → List Field → Outcome (Packet × List ℕ)
message memory opcode fs = create memory opcode >>= put_fields fs >>= λ p. ok (send_buffer p)

create-Wrote :
    (memory : List ℕ) (opcode : ℕ)
    → length memory ≡ capacity
    → (p : Packet) × (create memory opcode ≡ ok p)
      × Wrote (le_bytes 2 opcode ++ le_bytes 2 0) (create_empty memory) p
unfolding create put create_empty
create-Wrote memory opcode h =
    let (p, e, w) =
      put_bytes-Wrote (le_bytes 2 opcode) (create_empty memory) v
        (omega (arith, length-le_bytes 2 opcode)) in
    let (q, e', w') =
      put_bytes-Wrote (le_bytes 2 0) p w.valid
        (omega (arith, length-le_bytes 2 0, length-le_bytes 2 opcode, w.write_moved)) in
    (q, rw e e', Wrote-trans w w')
  where
    v : IsValid (create_empty memory)
    v = record { whole = h; write_in = omega arith; size_in = omega arith; read_in = omega arith }

-- A store below the end of a prefix is a store in the prefix.
take-append-drop :
    (ys buffer : List ℕ) (w : ℕ)
    → length ys ≤ w
    → length ys ≤ length buffer
    → take w (ys ++ drop (length ys) buffer) ≡ ys ++ drop (length ys) (take w buffer)
take-append-drop [] buffer w h k = refl
take-append-drop (y ∷ ys) [] w h k = absurd (omega arith)
take-append-drop (y ∷ ys) (b ∷ buffer) zero h k = absurd (omega arith)
take-append-drop (y ∷ ys) (b ∷ buffer) (suc w) h k =
    ap (λ zs. y ∷ zs) (take-append-drop ys buffer w (omega arith) (omega arith))

take-store_at :
    (i w : ℕ) (ys buffer : List ℕ)
    → i + length ys ≤ w
    → i + length ys ≤ length buffer
    → take w (store_at i ys buffer) ≡ store_at i ys (take w buffer)
unfolding store_at
take-store_at zero w ys buffer h k =
    rw zero-add (take-append-drop ys buffer w (omega arith) (omega arith))
take-store_at (suc i) zero ys buffer h k = absurd (omega arith)
take-store_at (suc i) (suc w) ys [] h k = absurd (omega arith)
take-store_at (suc i) (suc w) ys (b ∷ buffer) h k =
    rw suc-add (ap (λ zs. b ∷ zs) (take-store_at i w ys buffer (omega arith) (omega arith)))

store_at-append :
    (i : ℕ) (xs ys ys' zs : List ℕ)
    → i ≡ length xs
    → length ys' ≡ length ys
    → store_at i ys' (xs ++ (ys ++ zs)) ≡ xs ++ (ys' ++ zs)
unfolding store_at
store_at-append i xs ys ys' zs e h = rw (
  take-append i xs (ys ++ zs) e,
  ← drop-drop i (length ys') (xs ++ (ys ++ zs)),
  drop-append i xs (ys ++ zs) e,
  drop-append (length ys') ys zs h,
)

module _ (memory : List ℕ) (opcode : ℕ) (p : Packet)
    (w : Wrote (le_bytes 2 opcode ++ le_bytes 2 0) (create_empty memory) p) where
  create-write : p.write ≡ 4
  unfolding create_empty
  create-write = omega (
    arith,
    w.write_moved,
    length-append (le_bytes 2 opcode) (le_bytes 2 0),
    length-le_bytes 2 opcode,
    length-le_bytes 2 0,
  )

  send_buffer-Wrote :
      (q : Packet) (body : List ℕ)
      → Wrote body p q
      → (send_buffer q).1 ≡ le_bytes 2 opcode ++ (le_bytes 2 (length body) ++ body)
  unfolding send_buffer create_empty
  send_buffer-Wrote q body w' =
      rw
        (
          take-store_at 2 q.write (le_bytes 2 (u16 (q.write + 65536 - 4))) q.buffer
              (omega (arith, two, create-write, w'.write_moved))
              (omega (arith, two, w'.valid.whole)),
          w'.appended,
          w.appended,
          append_assoc (le_bytes 2 opcode) (le_bytes 2 0) body,
          count,
        )
        (store_at-append 2 (le_bytes 2 opcode) (le_bytes 2 0) (le_bytes 2 (length body)) body
          (omega (arith, length-le_bytes 2 opcode))
          (omega (arith, length-le_bytes 2 0, length-le_bytes 2 (length body))))
    where
      two : length (le_bytes 2 (u16 (q.write + 65536 - 4))) ≡ 2
      two = length-le_bytes 2 (u16 (q.write + 65536 - 4))

      count : u16 (q.write + 65536 - 4) ≡ length body
      count = omega (arith, create-write, w'.write_moved, w'.valid.write_in)

-- A message whose fields fit their types and the buffer is written, and its bytes to send are its
-- opcode, the length of its body and its body: no more and no less, whatever the pool's memory
-- held before.
pub message-frame :
    (memory : List ℕ) (opcode : ℕ) (fs : List Field)
    → length memory ≡ capacity
    → All InRange fs
    → 4 + length (encode_all fs) ≤ capacity
    → (p : Packet) × (message memory opcode fs
        ≡ ok (p, le_bytes 2 opcode ++ (le_bytes 2 (length (encode_all fs)) ++ encode_all fs)))
unfolding message
message-frame memory opcode fs m r h =
    let (p, e, w) = create-Wrote memory opcode m in
    let (q, e', w') =
      put_fields-Writes fs p r w.valid (omega (arith, create-write memory opcode p w)) in
    (
      (send_buffer q).0,
      rw (e, e')
          (ap (λ bs. ok ((send_buffer q).0, bs))
            (send_buffer-Wrote memory opcode p w q (encode_all fs) w')),
    )
