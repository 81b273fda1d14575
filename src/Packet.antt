-- ===== src/Packet.antt =====
-- src/io/packet.hpp and packet.cpp: a buffer of 1024 bytes with a cursor for reading, one for
-- writing and the number of bytes received. `uint16_t` members are numbers that wrap at 2 ^ 16. A
-- float is the bit pattern that `f2u` gives.
pub mod Bytes
pub mod Cursor
pub mod Field
pub mod Frame
pub mod Fifo
pub mod Tests
use Prim.Native.Nat.{max}
use shinzui.Base.{
  ℕ, zero, suc, ◌+◌, ◌-◌, ◌*◌, ◌%◌, ◌^◌, List, [], ◌∷◌, ◌++◌, Option, none, some, leb, ltb, take,
  drop, length, if◌then◌else◌, get_elem?, ◌==◌, Bool, true, false,
}
use Bytes.{le_bytes, of_le_bytes}

-- `read_out_of_bounds` is the exception `ReadOutOfBounds`. `overflow` is an access outside of the
-- 1024 bytes, which the language leaves undefined.
pub data Outcome (A : Type 0) : Type 0 where
  ok : A → Outcome A
  read_out_of_bounds : Outcome A
  overflow : Outcome A

infixl 5 ◌>>=◌
abbrev pub ◌>>=◌ : {A B : Type 0} → Outcome A → (A → Outcome B) → Outcome B
ok a >>= f = f a
read_out_of_bounds >>= f = read_out_of_bounds
overflow >>= f = overflow

pub record Packet : Type 0 where
  pub read : ℕ
  pub size : ℕ
  pub write : ℕ
  pub refs : ℕ
  pub buffer : List ℕ

abbrev pub capacity : ℕ
capacity = 1024

abbrev pub u16 : ℕ → ℕ
u16 n = n % 65536

-- The constructor leaves the buffer as the pool's memory is.
unfoldable pub create_empty : List ℕ → Packet
create_empty memory = record { read = 0; size = 0; write = 0; refs = 0; buffer = memory }

-- The bytes `bs` at `_buffer + i`.
unfoldable pub store_at : ℕ → List ℕ → List ℕ → List ℕ
store_at i bs buffer = take i buffer ++ (bs ++ drop (i + length bs) buffer)

-- `*reinterpret_cast<T*>(_buffer + _write) = v; _write += sizeof(T)`, without a test of the bound.
unfoldable pub put_bytes : List ℕ → Packet → Outcome Packet
unfolding store_at
put_bytes bs p =
    if leb (p.write + length bs) capacity
    then ok (record p { buffer = store_at p.write bs p.buffer; write = u16 (p.write + length bs) })
    else overflow

-- `operator<<(T v)` for an unsigned `T` of `n` bytes; a float by its bit pattern in 4 bytes.
unfoldable pub put : ℕ → ℕ → Packet → Outcome Packet
unfolding put_bytes
put n v p = put_bytes (le_bytes n v) p

-- The loop of `operator<<(const std::string&)`, over `str[i]`.
unfoldable pub put_chars : List ℕ → Packet → Outcome Packet
put_chars [] p = ok p
put_chars (c ∷ cs) p = put 1 c p >>= put_chars cs

unfoldable pub put_string : List ℕ → Packet → Outcome Packet
put_string str p = do let len = u16 (length str); p' ← put 2 len p; put_chars (take len str) p'

unfoldable pub buffer_len : Packet → ℕ
buffer_len p = max p.size p.write

-- The loop of `operator<<(Packet*)`, from index `i`, `n` rounds.
unfoldable pub put_data : ℕ → ℕ → List ℕ → Packet → Outcome Packet
put_data zero i bytes p = ok p
put_data (suc n) i bytes p = elim (get_elem? bytes i) [
  | none ↦ overflow
  | some b ↦ put 1 b p >>= put_data n (i + 1) bytes
]

unfoldable pub put_packet : Packet → Packet → Outcome Packet
put_packet other p =
    let end = max (max other.read other.size) other.write in put_data (end - 4) 4 other.buffer p

-- `create(opcode)`.
unfoldable pub create : List ℕ → ℕ → Outcome Packet
create memory opcode = put 2 opcode (create_empty memory) >>= put 2 0

-- `copy(from, size)`.
unfoldable pub copy : List ℕ → Packet → ℕ → Outcome Packet
copy memory from size =
    if leb size capacity
    then ok (record (create_empty memory) {
      buffer = store_at 0 (take size from.buffer) memory;
      size = size;
    })
    else overflow

-- The bytes that `peek<T>(offset)` reads, `n` of them.
unfoldable pub peek_bytes : ℕ → ℕ → Packet → Outcome (List ℕ)
peek_bytes n offset p =
    if ltb (buffer_len p) (offset + n)
    then read_out_of_bounds
    else if leb (offset + n) capacity
    then ok (take n (drop offset p.buffer))
    else overflow

unfoldable pub peek : ℕ → ℕ → Packet → Outcome ℕ
peek n offset p = peek_bytes n offset p >>= λ bs. ok (of_le_bytes bs)

-- `read<T>()` for an unsigned `T` of `n` bytes, and a float.
unfoldable pub read : ℕ → Packet → Outcome (ℕ × Packet)
read n p = peek n p.read p >>= λ v. ok (v, record p { read = u16 (p.read + n) })

-- `read(uint16_t length)`: the bytes from the pointer that it returns on.
unfoldable pub read_bytes : ℕ → Packet → Outcome (List ℕ × Packet)
read_bytes n p = peek_bytes n p.read p >>= λ bs. ok (bs, record p { read = u16 (p.read + n) })

unfoldable pub read_string : Packet → Outcome (List ℕ × Packet)
read_string p = read 2 p >>= λ (len, p'). read_bytes len p'

unfoldable pub reset : Packet → Packet
reset p = record p { read = 0; write = 0; size = 0 }

unfoldable pub add_size : ℕ → Packet → Packet
add_size n p = record p { size = u16 (p.size + n) }

-- `sendBuffer`: the length of the body goes behind the opcode, and `_write` bytes are sent.
unfoldable pub send_buffer : Packet → Packet × List ℕ
send_buffer p =
    let body = u16 (p.write + 65536 - 4) in
    let p' = record p { buffer = store_at 2 (le_bytes 2 body) p.buffer } in
    (p', take p.write p'.buffer)

-- `intrusive_ptr_add_ref` and `intrusive_ptr_release`; the flag says that the packet is destroyed.
unfoldable pub add_ref : Packet → Packet
add_ref p = record p { refs = u16 (p.refs + 1) }

unfoldable pub release : Packet → Packet × Bool
release p = let refs = u16 (p.refs + 65535) in (record p { refs = refs }, refs == 0)
