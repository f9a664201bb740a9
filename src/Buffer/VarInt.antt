-- ===== src/Buffer/VarInt.antt =====
-- mumble/buffer.c: `buffer_writeVarInt` and `buffer_readVarInt`. Growing by the number of bytes of a
-- form and storing them one by one is `write` of them.
pub mod Read
pub mod Write
pub mod Positive
pub mod RoundTrip
use lua_mumble.Base.{
  ℕ, zero, suc, ◌+◌, ◌-◌, ◌^◌, ◌&&◌, List, [], ◌∷◌, ◌++◌, Option, none, some, ltb, leb, not, ◌==◌,
  if◌then◌else◌, length, u8, u64, ◌>>◌, ◌<<◌, bit_and, bit_or, load, ◌>>=◌, get_or, Bool, true,
  false,
}
use lua_mumble.Varint.{word_2, word_3, word_4, word_8, complement}
use lua_mumble.Alloc.{Memory}
use lua_mumble.Buffer.{ByteBuffer, available, write}

-- The bytes of a value that is not negative.
pub positive_bytes : ℕ → List ℕ
positive_bytes value =
    if ltb value 0x80
    then u8 value ∷ []
    else if ltb value 0x4000
    then u8 (bit_or (value >> 8) 0x80) ∷ bit_and value 0xff ∷ []
    else if ltb value 0x200000
    then u8 (bit_or (value >> 16) 0xc0) ∷ bit_and (value >> 8) 0xff ∷ bit_and value 0xff ∷ []
    else if ltb value 0x10000000
    then u8 (bit_or (value >> 24) 0xe0)
      ∷ bit_and (value >> 16) 0xff
      ∷ bit_and (value >> 8) 0xff
      ∷ bit_and value 0xff
      ∷ []
    else if ltb value 0x100000000
    then 0xf0
      ∷ bit_and (value >> 24) 0xff
      ∷ bit_and (value >> 16) 0xff
      ∷ bit_and (value >> 8) 0xff
      ∷ bit_and value 0xff
      ∷ []
    else 0xf4
      ∷ bit_and (value >> 56) 0xff
      ∷ bit_and (value >> 48) 0xff
      ∷ bit_and (value >> 40) 0xff
      ∷ bit_and (value >> 32) 0xff
      ∷ bit_and (value >> 24) 0xff
      ∷ bit_and (value >> 16) 0xff
      ∷ bit_and (value >> 8) 0xff
      ∷ bit_and value 0xff
      ∷ []

-- The value is negative and small enough for the forms of negative numbers.
unfoldable pub is_negative : ℕ → Bool
is_negative value = not (bit_and value (2 ^ 63) == 0) && ltb (complement value) 0x100000000

write_positive : (m : Memory) → ByteBuffer → ℕ → ℕ → Option (ByteBuffer × ℕ)
write_positive m b value flag = do (b', n) ← write m b (positive_bytes value); some (b', n + flag)

-- The buffer and the returned size.
pub write_var_int : (m : Memory) → ByteBuffer → ℕ → Option (ByteBuffer × ℕ)
unfolding write_positive
write_var_int m b value =
    if is_negative value
    then (if leb (complement value) 0x3
        then write m b (u8 (bit_or 0xfc (complement value)) ∷ [])
        else (do (b', n) ← write m b (0xf8 ∷ []); write_positive m b' (complement value) 1))
    else write_positive m b value 0

-- `buffer_available`, the next `n` bytes, and then the output `value` and the size.
with_bytes : ByteBuffer → ℕ → (List ℕ → ℕ) → ℕ → Option (ByteBuffer × ℕ × ℕ)
with_bytes b n value size =
    if available b n
    then (do
      bytes ← load b.mem b.read_head n
      some (record b { read_head = u64 (b.read_head + n) }, value bytes, size))
    else some (b, 0, 0)

abbrev byte : List ℕ → ℕ → ℕ
byte bytes i = get_or bytes (i - 1) 0

-- `inner` is the result of the recursive call, which the form of negative numbers makes.
pub read_form : Option (ByteBuffer × ℕ × ℕ) → ByteBuffer → ℕ → Option (ByteBuffer × ℕ × ℕ)
unfolding with_bytes
read_form inner b v =
    if bit_and v 0x80 == 0x00
    then some (b, bit_and v 0x7f, 1)
    else if bit_and v 0xc0 == 0x80
    then with_bytes b 1 (λ s. word_2 (bit_and v 0x3f) (byte s 1)) 2
    else if bit_and v 0xf0 == 0xf0
    then (if bit_and v 0xfc == 0xf0
        then with_bytes b 4 (λ s. word_4 (byte s 1) (byte s 2) (byte s 3) (byte s 4)) 5
        else if bit_and v 0xfc == 0xf4
        then with_bytes b 8
            (λ s.
              word_8 (byte s 1) (byte s 2) (byte s 3) (byte s 4) (byte s 5) (byte s 6) (byte s 7)
                (byte s 8))
            9
        else if bit_and v 0xfc == 0xf8
        then (if available b 1
            then (do (b', i, size) ← inner; some (b', complement i, size))
            else some (b, 0, 0))
        else if bit_and v 0xfc == 0xfc
        then some (b, complement (bit_and v 0x03), 1)
        else some (b, 0, 1))
    else if bit_and v 0xf0 == 0xe0
    then with_bytes b 3 (λ s. word_4 (bit_and v 0x0f) (byte s 1) (byte s 2) (byte s 3)) 4
    else if bit_and v 0xe0 == 0xc0
    then with_bytes b 2 (λ s. word_3 (bit_and v 0x1f) (byte s 1) (byte s 2)) 3
    else some (b, 0, 0)

-- Each call takes a byte, so that `fuel` is the number of bytes that are left to read: none left is
-- what the first test of the code finds.
pub read_fuel : ℕ → ByteBuffer → Option (ByteBuffer × ℕ × ℕ)
unfolding read_form
read_fuel zero b = some (b, 0, 0)
read_fuel (suc fuel) b =
    if available b 1
    then (do
      first ← load b.mem b.read_head 1
      let b' = record b { read_head = u64 (b.read_head + 1) }
      read_form (read_fuel fuel b') b' (get_or first 0 0))
    else some (b, 0, 0)

-- The buffer, `*output` and the returned size, 0 where there are too few bytes.
pub read_var_int : ByteBuffer → Option (ByteBuffer × ℕ × ℕ)
unfolding read_fuel
read_var_int b = read_fuel (b.write_head - b.read_head) b
