-- ===== src/Buffer/Lua/Strings.antt =====
-- mumble/buffer.c: strings that are written and read back.
use lua_mumble.Base.{
  drop-append, drop, take-append, take, length-append, ◌≤◌, ℕ, ◌+◌, ◌^◌, ◌<◌, List, [], ◌∷◌, ◌++◌,
  some, length, ◌≡◌, refl, ap, ◌∙◌, arith, false, ◌==◌,
}
use mathlib.Core.List.{append_assoc}
use lua_mumble.Varint.{complement}
use lua_mumble.Alloc.{Memory, IsMemory}
use lua_mumble.Buffer.{ByteBuffer}
use lua_mumble.Buffer.Contents.{IsValid, contents}
use lua_mumble.Buffer.Reading.{advanced, read_lem}
use lua_mumble.Buffer.VarInt.Read.{Begins, Begins-rest}
use lua_mumble.Buffer.VarInt.RoundTrip.{read_var_int_lem, length-set_bytes}
use lua_mumble.Buffer.VarInt.Write.{var_int_bytes, read_size, Gives, write_var_int_lem, write_gives}
use lua_mumble.Buffer.Lua.{
  integer, text, returned, raised, luabuffer_write_string, luabuffer_read_string, read_sized,
}

-- The reader never returns 0 for a whole number.
read_size_positive : (v : ℕ) → 0 < read_size v
unfolding read_size
read_size_positive v = ground (arith, length-set_bytes v, length-set_bytes (complement v))

-- `writeString` appends the length and the bytes of the string, and returns the number of bytes of
-- the string.
pub write_string_lem :
    (m : Memory)
    → IsMemory m
    → Gives m
    → (b : ByteBuffer) (s : List ℕ) → IsValid b
    → b.write_head + 20 + length s < 2 ^ 60
    → (b' : ByteBuffer) × (luabuffer_write_string m b s
        ≡ some (returned b' (integer (length s) ∷ [])))
      × IsValid b'
      × (contents b' ≡ contents b ++ (var_int_bytes (length s) ++ s))
unfolding luabuffer_write_string
write_string_lem m laws gives b s ok h =
    let (b_1, written_1, valid_1, holds_1, head_1) =
      write_var_int_lem m laws gives b (length s) ok (omega arith) in
    let (b_2, written_2, valid_2, holds_2, head_2) =
      write_gives m laws gives b_1 s valid_1 (omega (arith, head_1)) in
    (
      b_2,
      rw (written_1, written_2),
      valid_2,
      holds_2
          ∙ ap (λ (t : List ℕ). t ++ s) holds_1
          ∙ append_assoc (contents b) (var_int_bytes (length s)) s,
    )

-- `readString` takes back a string that is not empty.
pub read_string_lem :
    (b : ByteBuffer) (s rest : List ℕ)
    → 0 < length s
    → length s < 2 ^ 63
    → Begins b (var_int_bytes (length s) ++ s) rest
    → (b' : ByteBuffer) × (luabuffer_read_string b ≡ some (returned b' (text s ∷ [])))
      × IsValid b'
      × (contents b' ≡ rest)
unfolding luabuffer_read_string
read_string_lem b s rest h k g =
    let v = length s in
    let begins : Begins b (var_int_bytes v) (s ++ rest) = record {
      valid = g.valid;
      front = g.front ∙ append_assoc (var_int_bytes v) s rest;
    } in
    let n_ok : (read_size v == 0) ≡ false = ground (arith, read_size_positive v) in
    let k_ok : (v == 0) ≡ false = ground arith in
    let after = Begins-rest b (var_int_bytes v) (s ++ rest) begins in
    let b_1 = advanced b (length (var_int_bytes v)) in
    let enough : length s ≤ length (contents b_1) =
      omega (arith, ap (λ (t : List ℕ). length t) after.front, length-append s rest) in
    let (taken, left, valid) = read_lem b_1 v after.valid enough in
    let string : take v (contents b_1) ≡ s = ap (take v) after.front ∙ take-append v s rest refl in
    (
      advanced b_1 v,
      rw (read_var_int_lem b (s ++ rest) v (omega arith) begins, n_ok)
          (unfold read_sized in rw (taken, string, k_ok)),
      valid,
      left ∙ ap (drop v) after.front ∙ drop-append v s rest refl,
    )

-- An empty string is written as the length 0, and `readString` raises an error on it, though it was
-- written by `writeString`.
pub read_string_empty :
    (b : ByteBuffer) (rest : List ℕ)
    → Begins b (var_int_bytes 0) rest
    → (b' : ByteBuffer) × (luabuffer_read_string b ≡ some (raised b')) × (contents b' ≡ rest)
unfolding luabuffer_read_string
read_string_empty b rest g =
    let n_ok : (read_size 0 == 0) ≡ false = ground (arith, read_size_positive 0) in
    let after = Begins-rest b (var_int_bytes 0) rest g in
    let b_1 = advanced b (length (var_int_bytes 0)) in
    let (taken, left, valid) = read_lem b_1 0 after.valid (omega arith) in
    (
      advanced b_1 0,
      rw (read_var_int_lem b rest 0 (omega arith) g, n_ok) (unfold read_sized in rw taken),
      left ∙ after.front,
    )
