-- ===== src/Tests/Buffers.antt =====
-- Buffers of a few bytes.
use lua_mumble.Base.{◌+◌, ◌-◌, ◌^◌, [], ◌∷◌, ◌++◌, some, none, length, ◌≡◌, refl, arith, inr}
use lua_mumble.Tests.Memory.{memory, memory-IsMemory, memory_gives}
use lua_mumble.Buffer.{ByteBuffer, write, read, grown_capacity}
use lua_mumble.Buffer.Contents.{IsValid, contents, write_lem, grown_capacity_bounds}
use lua_mumble.Buffer.Reading.{read_lem, advanced}
use lua_mumble.Alloc.{Memory}
use lua_mumble.Buffer.VarInt.{is_negative, write_var_int, read_var_int}
use lua_mumble.Buffer.VarInt.Read.{Begins}
use lua_mumble.Buffer.VarInt.Write.{var_int_bytes, read_size}
use lua_mumble.Buffer.VarInt.RoundTrip.{read_var_int-write_var_int}
use lua_mumble.Varint.{set_bytes, util_get_varint}
use lua_mumble.Varint.RoundTrip.{get-set}

-- Five cells, of which the second and the third are unread.
abbrev five : ByteBuffer
five = record {
  original_capacity = 5;
  capacity = 5;
  read_head = 1;
  write_head = 3;
  mem = 10 ∷ 20 ∷ 30 ∷ 0 ∷ 0 ∷ [];
}

five-IsValid : IsValid five
five-IsValid = record {
  allocated = refl;
  ordered = omega arith;
  within = omega arith;
  small = omega arith;
}

-- Nothing is unread.
abbrev drained : ByteBuffer
drained = record {
  original_capacity = 2;
  capacity = 2;
  read_head = 1;
  write_head = 1;
  mem = 7 ∷ 0 ∷ [];
}

drained-IsValid : IsValid drained
drained-IsValid = record {
  allocated = refl;
  ordered = omega arith;
  within = omega arith;
  small = omega arith;
}

-- A write that makes the buffer grow.
write_lem_example :
    (b' : ByteBuffer) × (write memory five (1 ∷ 2 ∷ 3 ∷ 4 ∷ []) ≡ some (b', 4))
    × IsValid b'
    × (contents b' ≡ 20 ∷ 30 ∷ 1 ∷ 2 ∷ 3 ∷ 4 ∷ [])
    × (b'.write_head ≡ 7)
write_lem_example =
    write_lem memory memory-IsMemory five (1 ∷ 2 ∷ 3 ∷ 4 ∷ []) five-IsValid (omega arith) (
      inr (
        memory_gives five.mem (grown_capacity 5 7)
          (omega (arith, (grown_capacity_bounds 5 7 (omega arith) (omega arith)).1))))

read_lem_example :
    (read five 1 ≡ some (advanced five 1, 1, 20 ∷ []))
    × (contents (advanced five 1) ≡ 30 ∷ [])
    × IsValid (advanced five 1)
read_lem_example = read_lem five 1 five-IsValid (omega arith)

-- The number -1000 as a 64-bit word.
read_var_int-write_var_int_example :
    (b_1 b_2 : ByteBuffer) × (write_var_int memory drained (2 ^ 64 - 1000)
      ≡ some (b_1, length (var_int_bytes (2 ^ 64 - 1000))))
    × (read_var_int b_1 ≡ some (b_2, 2 ^ 64 - 1000, read_size (2 ^ 64 - 1000)))
    × IsValid b_2
    × (contents b_2 ≡ [])
read_var_int-write_var_int_example =
    read_var_int-write_var_int memory memory-IsMemory memory_gives drained (2 ^ 64 - 1000)
      drained-IsValid refl (omega arith) (omega arith)

get-set_example :
    util_get_varint (set_bytes 70000 ++ (9 ∷ [])) 1 ≡ some (70000, 1 + length (set_bytes 70000))
get-set_example = get-set 70000 1 (9 ∷ []) (omega arith)

-- The bytes that `writeString` leaves for "hi", and for the empty string.
abbrev hi : ByteBuffer
hi = record {
  original_capacity = 3;
  capacity = 3;
  read_head = 0;
  write_head = 3;
  mem = 2 ∷ 104 ∷ 105 ∷ [];
}

hi-Begins : Begins hi (var_int_bytes 2 ++ (104 ∷ 105 ∷ [])) []
unfolding var_int_bytes set_bytes is_negative
hi-Begins = record {
  valid = record {
    allocated = refl;
    ordered = omega arith;
    within = omega arith;
    small = omega arith;
  };
  front = refl;
}

abbrev nothing_written : ByteBuffer
nothing_written = record {
  original_capacity = 1;
  capacity = 1;
  read_head = 0;
  write_head = 1;
  mem = 0 ∷ [];
}

nothing-Begins : Begins nothing_written (var_int_bytes 0) []
unfolding var_int_bytes set_bytes is_negative
nothing-Begins = record {
  valid = record {
    allocated = refl;
    ordered = omega arith;
    within = omega arith;
    small = omega arith;
  };
  front = refl;
}

-- An allocator that gives nothing more.
abbrev full_memory : Memory
full_memory = record { malloc = λ n. none; realloc = λ d n. none }

-- A buffer that grew from one cell to four and holds two bytes.
abbrev grown : ByteBuffer
grown = record {
  original_capacity = 1;
  capacity = 4;
  read_head = 0;
  write_head = 2;
  mem = 5 ∷ 6 ∷ 0 ∷ 0 ∷ [];
}

grown-IsValid : IsValid grown
grown-IsValid = record {
  allocated = refl;
  ordered = omega arith;
  within = omega arith;
  small = omega arith;
}

-- The same with an original capacity of three.
abbrev roomy : ByteBuffer
roomy = record {
  original_capacity = 3;
  capacity = 4;
  read_head = 0;
  write_head = 2;
  mem = 5 ∷ 6 ∷ 0 ∷ 0 ∷ [];
}

roomy-IsValid : IsValid roomy
roomy-IsValid = record {
  allocated = refl;
  ordered = omega arith;
  within = omega arith;
  small = omega arith;
}
