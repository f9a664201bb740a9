-- ===== src/Buffer/VarInt/RoundTrip.antt =====
-- mumble/buffer.c: `buffer_readVarInt` reads back what `buffer_writeVarInt` wrote.
use lua_mumble.Base.{
  ℕ, suc, ◌+◌, ◌-◌, ◌^◌, ◌<◌, List, [], ◌∷◌, ◌++◌, some, length, ◌≡◌, refl, sym, ap, ◌∙◌, arith,
  tests, true, false, Bool-cases, inl, inr, u64, bit_and, leb, ltb, ◌==◌,
}
use mathlib.Core.Path.{subst}
use mathlib.Core.List.{append-nil}
use lua_mumble.Alloc.{Memory, IsMemory}
use lua_mumble.Buffer.Contents.{IsValid, contents}
use lua_mumble.Base.Bits.{bit_and_mask}
use lua_mumble.Varint.{set_bytes, complement}
use lua_mumble.Varint.First.{mask_80, mask_c0, mask_f0, mask_fc, tag_fc}
use lua_mumble.Buffer.{ByteBuffer}
use lua_mumble.Buffer.Reading.{advanced, unread}
use lua_mumble.Buffer.VarInt.{read_form, read_fuel, read_var_int, write_var_int, is_negative}
use lua_mumble.Buffer.VarInt.Read.{Begins, begins-length, Begins-rest}
use lua_mumble.Buffer.VarInt.Positive.{read_positive, read_first, Begins-tail, advanced_by}
use lua_mumble.Buffer.VarInt.Write.{var_int_bytes, read_size, Gives, write_var_int_lem}

pub length-set_bytes : (v : ℕ) → 0 < length (set_bytes v)
unfolding set_bytes
length-set_bytes v = ground arith

-- The forms of negative numbers: `i` is the complement of the value.
module _ (fuel : ℕ) (b : ByteBuffer) (rest : List ℕ) (i : ℕ) where
  read_short :
      i < 4
      → Begins b ((i + 252) ∷ []) rest
      → read_fuel (suc fuel) b ≡ some (advanced b 1, complement i, 1)
  unfolding read_form
  read_short h g =
      let t_1 : (bit_and (i + 252) 0x80 == 0) ≡ false = ground (arith, mask_80 (i + 252)) in
      let t_2 : (bit_and (i + 252) 0xc0 == 0x80) ≡ false = ground (arith, mask_c0 (i + 252)) in
      let t_3 : (bit_and (i + 252) 0xf0 == 0xf0) ≡ true = ground (arith, mask_f0 (i + 252)) in
      let t_4 : (bit_and (i + 252) 0xfc == 0xf0) ≡ false = ground (arith, mask_fc (i + 252)) in
      let t_5 : (bit_and (i + 252) 0xfc == 0xf4) ≡ false = ground (arith, mask_fc (i + 252)) in
      let t_6 : (bit_and (i + 252) 0xfc == 0xf8) ≡ false = ground (arith, mask_fc (i + 252)) in
      let t_7 : (bit_and (i + 252) 0xfc == 0xfc) ≡ true = ground (arith, mask_fc (i + 252)) in
      let low : bit_and (i + 252) 0x03 ≡ i = omega (arith, bit_and_mask 2 (i + 252)) in
      read_first fuel b (i + 252) [] rest g ∙ rw (t_1, t_2, t_3, t_4, t_5, t_6, t_7, low) refl

  read_negative :
      i < 2 ^ 64
      → Begins b (0xf8 ∷ set_bytes i) rest
      → read_fuel (suc (suc fuel)) b
        ≡ some (advanced b (suc (length (set_bytes i))), complement i, length (set_bytes i))
  unfolding read_form
  read_negative h g =
      let c = advanced b 1 in
      let g' = Begins-tail b 0xf8 (set_bytes i) rest g in
      let there : ltb c.write_head (u64 (c.read_head + 1)) ≡ false = omega (
        tests,
        begins-length c (set_bytes i) rest g',
        length-set_bytes i,
        g'.valid.ordered,
        g'.valid.within,
        g'.valid.small,
      ) in
      read_first (suc fuel) b 0xf8 (set_bytes i) rest g
      ∙ rw (there, read_positive fuel c rest i h g')
          (ap (λ (t : ByteBuffer). some (t, complement i, length (set_bytes i)))
            (advanced_by b (length (set_bytes i)) (suc (length (set_bytes i))) (omega arith)))

-- At least one call is made for one byte, and two for two.
one_left :
    (b : ByteBuffer) (bytes rest : List ℕ)
    → Begins b bytes rest
    → 0 < length bytes
    → unread b ≡ suc (unread b - 1)
one_left b bytes rest g h = omega (arith, begins-length b bytes rest g)

two_left :
    (b : ByteBuffer) (bytes rest : List ℕ)
    → Begins b bytes rest
    → 1 < length bytes
    → unread b ≡ suc (suc (unread b - 2))
two_left b bytes rest g h = omega (arith, begins-length b bytes rest g)

-- `buffer_readVarInt` on contents that begin with what `buffer_writeVarInt` puts there gives the
-- 64-bit value that was written, also a negative one, and takes those bytes and no more.
pub read_var_int_lem :
    (b : ByteBuffer) (rest : List ℕ) (v : ℕ)
    → v < 2 ^ 64
    → Begins b (var_int_bytes v) rest
    → read_var_int b ≡ some (advanced b (length (var_int_bytes v)), v, read_size v)
unfolding read_var_int
read_var_int_lem b rest v h g = elim (Bool-cases (is_negative v)) [
  | inr positive ↦
      let e : var_int_bytes v ≡ set_bytes v = unfold var_int_bytes in rw positive in
      let k : read_size v ≡ length (set_bytes v) = unfold read_size in rw positive in
      let g' = turned e in
      rw (e, k)
        (ap (λ (t : ℕ). read_fuel t b) (one_left b (set_bytes v) rest g' (length-set_bytes v))
          ∙ read_positive (unread b - 1) b rest v h g')
  | inl negative ↦ elim (Bool-cases (leb (complement v) 3)) [
    | inl small ↦
        let few : complement v < 4 = ground arith in
        let e : var_int_bytes v ≡ (complement v + 252) ∷ [] =
          unfold var_int_bytes in
          rw (negative, small)
            (ap (λ (t : ℕ). t ∷ []) (omega (arith, tag_fc (complement v) few))) in
        let k : read_size v ≡ 1 = unfold read_size in rw (negative, small) in
        let g' = turned e in
        rw (e, k)
          (ap (λ (t : ℕ). read_fuel t b) (one_left b _ rest g' (omega arith))
            ∙ read_short (unread b - 1) b rest (complement v) few g'
            ∙ ap (λ (t : ℕ). some (advanced b 1, t, 1)) (omega arith))
    | inr large ↦
        let i = complement v in
        let e : var_int_bytes v ≡ 0xf8 ∷ set_bytes i =
          unfold var_int_bytes in rw (negative, large) in
        let k : read_size v ≡ length (set_bytes i) = unfold read_size in rw (negative, large) in
        let g' = turned e in
        rw (e, k)
          (ap (λ (t : ℕ). read_fuel t b)
              (two_left b (0xf8 ∷ set_bytes i) rest g' (omega (arith, length-set_bytes i)))
            ∙ read_negative (unread b - 2) b rest i (omega arith) g'
            ∙ ap
                (λ (t : ℕ). some (advanced b (suc (length (set_bytes i))), t, length (set_bytes i)))
                (omega arith))
  ]
]
  where
    turned : {l : List ℕ} → var_int_bytes v ≡ l → Begins b l rest
    turned e = subst (λ (l : List ℕ). Begins b l rest) e g

-- A 64-bit value that is written to a buffer without unread bytes is read back, also a negative one,
-- and nothing is left to read. The allocator gives every size below 2 ^ 62.
pub read_var_int-write_var_int :
    (m : Memory)
    → IsMemory m
    → Gives m
    → (b : ByteBuffer) (v : ℕ) → IsValid b
    → contents b ≡ []
    → b.write_head + 10 < 2 ^ 61
    → v < 2 ^ 64
    → (b_1 b_2 : ByteBuffer) × (write_var_int m b v ≡ some (b_1, length (var_int_bytes v)))
      × (read_var_int b_1 ≡ some (b_2, v, read_size v))
      × IsValid b_2
      × (contents b_2 ≡ [])
read_var_int-write_var_int m laws gives b v ok empty h k =
    let (b_1, written, valid, holds, head) = write_var_int_lem m laws gives b v ok h in
    let begins : Begins b_1 (var_int_bytes v) [] = record {
      valid = valid;
      front =
          holds
          ∙ ap (λ (t : List ℕ). t ++ var_int_bytes v) empty
          ∙ sym (append-nil (var_int_bytes v));
    } in
    let rest = Begins-rest b_1 (var_int_bytes v) [] begins in
    (
      b_1,
      advanced b_1 (length (var_int_bytes v)),
      written,
      read_var_int_lem b_1 [] v k begins,
      rest.valid,
      rest.front,
    )
