-- ===== src/Varint.antt =====
-- mumble/audio.c: `util_set_varint` and `util_get_varint`, the variable-length integers of voice
-- packets. A buffer is the list of its cells and an offset; `none` stands for an access out of it.
pub mod First
pub mod RoundTrip
use lua_mumble.Base.{
  ℕ, ◌+◌, ◌-◌, ◌^◌, List, [], ◌∷◌, Option, none, some, ltb, ◌==◌, if◌then◌else◌, length, u8, u64,
  ◌>>◌, ◌<<◌, bit_and, bit_or, store, ◌>>=◌, get_elem?, Bool, true, false,
}

-- The bytes that are stored, in the order of the buffer.
unfoldable pub set_bytes : ℕ → List ℕ
set_bytes value =
    if ltb value 0x80
    then u8 value ∷ []
    else if ltb value 0x4000
    then u8 (bit_or (value >> 8) 0x80) ∷ bit_and value 0xff ∷ []
    else if ltb value 0x200000
    then u8 (bit_or (value >> 16) 0xc0) ∷ bit_and (value >> 8) 0xff ∷ bit_and value 0xff ∷ []
    else if ltb value 0x10000000
    then u8 (bit_or (value >> 24) 0xe0)
      ∷ bit_and (value >> 16) 0xff
      ∷ bit_and (value >> 8) 0xff
      ∷ bit_and value 0xff
      ∷ []
    else if ltb value 0x100000000
    then 0xf0
      ∷ bit_and (value >> 24) 0xff
      ∷ bit_and (value >> 16) 0xff
      ∷ bit_and (value >> 8) 0xff
      ∷ bit_and value 0xff
      ∷ []
    else 0xf4
      ∷ bit_and (value >> 56) 0xff
      ∷ bit_and (value >> 48) 0xff
      ∷ bit_and (value >> 40) 0xff
      ∷ bit_and (value >> 32) 0xff
      ∷ bit_and (value >> 24) 0xff
      ∷ bit_and (value >> 16) 0xff
      ∷ bit_and (value >> 8) 0xff
      ∷ bit_and value 0xff
      ∷ []

-- The buffer after the call, and the number of bytes.
unfoldable pub util_set_varint : List ℕ → ℕ → ℕ → Option (List ℕ × ℕ)
util_set_varint buffer offset value = do
  buffer' ← store buffer offset (set_bytes value)
  some (buffer', length (set_bytes value))

abbrev pub word_2 : ℕ → ℕ → ℕ
word_2 a b = bit_or (a << 8) b

abbrev pub word_3 : ℕ → ℕ → ℕ → ℕ
word_3 a b c = bit_or (bit_or (a << 16) (b << 8)) c

abbrev pub word_4 : ℕ → ℕ → ℕ → ℕ → ℕ
word_4 a b c d = bit_or (bit_or (bit_or (a << 24) (b << 16)) (c << 8)) d

abbrev pub word_8 : ℕ → ℕ → ℕ → ℕ → ℕ → ℕ → ℕ → ℕ → ℕ
word_8 a b c d e f g h =
    bit_or
      (bit_or
        (bit_or
          (bit_or (bit_or (bit_or (bit_or (a << 56) (b << 48)) (c << 40)) (d << 32)) (e << 24))
          (f << 16))
        (g << 8))
      h

-- `~` on 64 bits.
abbrev pub complement : ℕ → ℕ
complement i = 2 ^ 64 - 1 - u64 i

-- The value and `*len` after the call, from the first byte on.
get_form : List ℕ → ℕ → ℕ → Option (ℕ × ℕ)
get_form buffer len v =
    if bit_and v 0x80 == 0x00
    then some (bit_and v 0x7f, len + 1)
    else if bit_and v 0xc0 == 0x80
    then (do b1 ← get_elem? buffer 1; some (word_2 (bit_and v 0x3f) b1, len + 2))
    else if bit_and v 0xf0 == 0xf0
    then (if bit_and v 0xfc == 0xf0
        then (do
          b1 ← get_elem? buffer 1
          b2 ← get_elem? buffer 2
          b3 ← get_elem? buffer 3
          b4 ← get_elem? buffer 4
          some (word_4 b1 b2 b3 b4, len + 5))
        else if bit_and v 0xfc == 0xf4
        then (do
          b1 ← get_elem? buffer 1
          b2 ← get_elem? buffer 2
          b3 ← get_elem? buffer 3
          b4 ← get_elem? buffer 4
          b5 ← get_elem? buffer 5
          b6 ← get_elem? buffer 6
          b7 ← get_elem? buffer 7
          b8 ← get_elem? buffer 8
          some (word_8 b1 b2 b3 b4 b5 b6 b7 b8, len + 9))
        else if bit_and v 0xfc == 0xf8
        then some (complement 0, len + 1)
        else if bit_and v 0xfc == 0xfc
        then some (complement (bit_and v 0x03), len + 1)
        else some (0, len + 1))
    else if bit_and v 0xf0 == 0xe0
    then (do
      b1 ← get_elem? buffer 1
      b2 ← get_elem? buffer 2
      b3 ← get_elem? buffer 3
      some (word_4 (bit_and v 0x0f) b1 b2 b3, len + 4))
    else if bit_and v 0xe0 == 0xc0
    then (do
      b1 ← get_elem? buffer 1
      b2 ← get_elem? buffer 2
      some (word_3 (bit_and v 0x1f) b1 b2, len + 3))
    else some (0, len)

pub util_get_varint : List ℕ → ℕ → Option (ℕ × ℕ)
unfolding get_form
util_get_varint buffer len = do v ← get_elem? buffer 0; get_form buffer len v
