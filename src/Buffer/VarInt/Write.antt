-- ===== src/Buffer/VarInt/Write.antt =====
-- mumble/buffer.c: what `buffer_writeVarInt` appends.
use lua_mumble.Base.{
  ℕ, ◌+◌, ◌^◌, ◌≤◌, ◌<◌, List, [], ◌∷◌, ◌++◌, some, length, ◌≡◌, refl, ap, ◌∙◌, arith, tests,
  Bool-cases, inl, inr, u8, bit_or, if◌then◌else◌, leb, ltb,
}
use mathlib.Core.List.{append_assoc}
use lua_mumble.Varint.{set_bytes, complement}
use lua_mumble.Alloc.{Memory, IsMemory}
use lua_mumble.Buffer.{ByteBuffer, grown_capacity, write}
use lua_mumble.Buffer.Contents.{IsValid, contents, HasRoom, grown_capacity_bounds, write_lem}
use lua_mumble.Buffer.VarInt.{positive_bytes, is_negative, write_var_int, write_positive}

-- The forms of numbers that are not negative are those of audio.c.
pub positive_bytes-eq : (v : ℕ) → positive_bytes v ≡ set_bytes v
positive_bytes-eq v = unfold positive_bytes set_bytes in refl

-- What `buffer_writeVarInt` puts in the buffer, and what `buffer_readVarInt` says is its size: the
-- flag byte of a negative number is not counted.
unfoldable pub var_int_bytes : ℕ → List ℕ
var_int_bytes value =
    if is_negative value
    then (if leb (complement value) 0x3
        then u8 (bit_or 0xfc (complement value)) ∷ []
        else 0xf8 ∷ set_bytes (complement value))
    else set_bytes value

unfoldable pub read_size : ℕ → ℕ
unfolding var_int_bytes
read_size value =
    if is_negative value
    then (if leb (complement value) 0x3 then 1 else length (set_bytes (complement value)))
    else length (set_bytes value)

-- `realloc` gives every size below 2 ^ 62.
abbrev pub Gives : Memory → Type 0
Gives m = (d : List ℕ) (n : ℕ) → n < 2 ^ 62 → (d' : List ℕ) × (m.realloc d n ≡ some d')

pub length-set_bytes_le : (v : ℕ) → length (set_bytes v) ≤ 9
unfolding set_bytes
length-set_bytes_le v = ground arith

module _ (m : Memory) (laws : IsMemory m) (gives : Gives m) where
  pub HasRoom-gives : (b : ByteBuffer) (n : ℕ) → b.write_head + n < 2 ^ 61 → HasRoom m b n
  HasRoom-gives b n h = elim (Bool-cases (ltb b.capacity (b.write_head + n))) [
    | inl more ↦ inr (
        gives b.mem (grown_capacity b.capacity (b.write_head + n)) (
          omega (
            arith,
            grown_capacity_bounds b.capacity (b.write_head + n) (omega (tests, more)) (omega arith),
          )))
    | inr fits ↦ inl (omega (tests, fits))
  ]

  -- `buffer_write` where the allocator gives the memory.
  pub write_gives :
      (b : ByteBuffer) (bytes : List ℕ)
      → IsValid b
      → b.write_head + length bytes < 2 ^ 61
      → (b' : ByteBuffer) × (write m b bytes ≡ some (b', length bytes))
        × IsValid b'
        × (contents b' ≡ contents b ++ bytes)
        × (b'.write_head ≡ b.write_head + length bytes)
  write_gives b bytes v h =
      write_lem m laws b bytes v (omega arith) (HasRoom-gives b (length bytes) h)

  positive_gives :
      (b : ByteBuffer) (v flag : ℕ)
      → IsValid b
      → b.write_head + 9 < 2 ^ 61
      → (b' : ByteBuffer) × (write_positive m b v flag ≡ some (b', length (set_bytes v) + flag))
        × IsValid b'
        × (contents b' ≡ contents b ++ set_bytes v)
        × (b'.write_head ≤ b.write_head + 9)
  unfolding write_positive
  positive_gives b v flag ok h =
      let (b', written, valid, holds, head) =
        write_gives b (set_bytes v) ok (omega (arith, length-set_bytes_le v)) in
      (
        b',
        rw (positive_bytes-eq v, written),
        valid,
        holds,
        omega (arith, head, length-set_bytes_le v),
      )

  -- `buffer_writeVarInt` appends the bytes of the value and returns their number.
  pub write_var_int_lem :
      (b : ByteBuffer) (v : ℕ)
      → IsValid b
      → b.write_head + 10 < 2 ^ 61
      → (b' : ByteBuffer) × (write_var_int m b v ≡ some (b', length (var_int_bytes v)))
        × IsValid b'
        × (contents b' ≡ contents b ++ var_int_bytes v)
        × (b'.write_head ≤ b.write_head + 10)
  unfolding write_var_int var_int_bytes
  write_var_int_lem b v ok h = elim (Bool-cases (is_negative v)) [
    | inr positive ↦
        let (b', written, valid, holds, head) = positive_gives b v 0 ok (omega arith) in
        (
          b',
          rw positive (written ∙ ap (λ (t : ℕ). some (b', t)) (omega arith)),
          valid,
          rw positive holds,
          omega (arith, head),
        )
    | inl negative ↦ elim (Bool-cases (leb (complement v) 3)) [
      | inl small ↦
          let (b', written, valid, holds, head) =
            write_gives b (u8 (bit_or 0xfc (complement v)) ∷ []) ok (omega arith) in
          (b', rw (negative, small) written, valid, rw (negative, small) holds, omega (arith, head))
      | inr large ↦
          let (b_1, written_1, valid_1, holds_1, head_1) =
            write_gives b (0xf8 ∷ []) ok (omega arith) in
          let (b_2, written_2, valid_2, holds_2, head_2) =
            positive_gives b_1 (complement v) 1 valid_1 (omega (arith, head_1)) in
          (
            b_2,
            rw (negative, large, written_1)
                (written_2 ∙ ap (λ (t : ℕ). some (b_2, t)) (omega arith)),
            valid_2,
            rw (negative, large)
                (holds_2
                  ∙ ap (λ (t : List ℕ). t ++ set_bytes (complement v)) holds_1
                  ∙ append_assoc (contents b) (0xf8 ∷ []) (set_bytes (complement v))),
            omega (arith, head_1, head_2),
          )
    ]
  ]
