-- ===== src/Packet/Tests.antt =====
-- Concrete packets.
use shinzui.Base.{
  ℕ, ◌+◌, ◌-◌, ◌≤◌, ◌≡◌, refl, List, [], ◌∷◌, ◌++◌, map, arith, length, length-replicate, replicate,
  All,
}
use shinzui.Packet.{Packet, ok, capacity, create_empty}
use shinzui.Packet.Bytes.{le_bytes}
use shinzui.Packet.Cursor.{IsValid, unread}
use shinzui.Packet.Field.{
  Field, word, string, vec2, shape, put_fields, read_fields, encode_all, InRange,
}
use shinzui.Packet.Fifo.{IsOpen, Command, puts, takes, run, run_fifo, run-run_fifo}
use shinzui.Packet.Frame.{IsFlushed, message, read_fields-put_fields, message-frame}

abbrev memory : List ℕ
memory = replicate capacity 0

abbrev blank : Packet
blank = create_empty memory

abbrev sample : List Field
sample = word 2 513 ∷ vec2 7 9 ∷ string (104 ∷ 105 ∷ []) ∷ []

sample-InRange : All InRange sample
sample-InRange = ground arith

blank-whole : length memory ≡ capacity
blank-whole = length-replicate {A = ℕ} capacity 0

blank-IsFlushed : IsFlushed blank
unfolding create_empty
blank-IsFlushed = record {
  valid = record {
    whole = blank-whole;
    write_in = omega arith;
    size_in = omega arith;
    read_in = omega arith;
  };
  unsized = omega arith;
  all_read = refl;
}

fits : blank.write + length (encode_all sample) ≤ capacity
unfolding create_empty le_bytes
fits = omega arith

read_fields-put_fields_example :
    (p' p'' : Packet) × (put_fields sample blank ≡ ok p')
    × (read_fields (map shape sample) p' ≡ ok (sample, p''))
    × (unread p'' ≡ [])
read_fields-put_fields_example =
    read_fields-put_fields sample blank sample-InRange blank-IsFlushed fits

sample-fits : 4 + length (encode_all sample) ≤ capacity
unfolding le_bytes
sample-fits = omega arith

message-frame_example :
    (p : Packet) × (message memory 770 sample
      ≡ ok (p, le_bytes 2 770 ++ (le_bytes 2 (length (encode_all sample)) ++ encode_all sample)))
message-frame_example = message-frame memory 770 sample blank-whole sample-InRange sample-fits

-- A packet with three bytes to read.
abbrev short : Packet
short = record { read = 0; size = 0; write = 3; refs = 0; buffer = replicate capacity 1 }

short-IsValid : IsValid short
short-IsValid = record {
  whole = length-replicate {A = ℕ} capacity 1;
  write_in = omega arith;
  size_in = omega arith;
  read_in = omega arith;
}

-- A packet that holds the fields of `sample`.
abbrev received : Packet
received = record {
  read = 0;
  size = 14;
  write = 0;
  refs = 0;
  buffer = encode_all sample ++ replicate 1010 0;
}

received-IsValid : IsValid received
unfolding le_bytes
received-IsValid = record {
  whole = refl;
  write_in = omega arith;
  size_in = omega arith;
  read_in = omega arith;
}

all_unread : unread received ≡ encode_all sample ++ []
unfolding le_bytes
all_unread = refl

blank-IsOpen : IsOpen blank
blank-IsOpen = record { valid = blank-IsFlushed.valid; unsized = blank-IsFlushed.unsized }

abbrev exchange : List Command
exchange = puts (1 ∷ 2 ∷ 3 ∷ []) ∷ takes 2 ∷ puts (4 ∷ []) ∷ takes 2 ∷ takes 1 ∷ []

run-run_fifo_example :
    run exchange blank ≡ run_fifo exchange (unread blank) (capacity - blank.write)
run-run_fifo_example = run-run_fifo exchange blank blank-IsOpen
