-- ===== src/Varint/RoundTrip.antt =====
-- mumble/audio.c: what `util_set_varint` stores, `util_get_varint` reads back.
use lua_mumble.Base.{
  inr, tests, inl, false, ltb, ap, ◌≤◌, ◌∙◌, Bool-cases, ℕ, ◌+◌, ◌*◌, ◌/◌, ◌%◌, ◌^◌, ◌<◌, List, [],
  ◌∷◌, ◌++◌, ◌≡◌, bit_and, arith, some, length,
}
use lua_mumble.Base.Bits.{bit_and_mask}
use lua_mumble.Varint.{set_bytes, util_get_varint}
use lua_mumble.Varint.First.{
  mask_80, mask_c0, mask_e0, mask_f0, tag_80, tag_c0, tag_e0, word_2-eq, word_3-eq, word_4-eq,
  word_8-eq,
}

low_byte : (v : ℕ) → bit_and v 0xff ≡ v % 256
low_byte v = bit_and_mask 8 v

module _ (rest : List ℕ) (len : ℕ) where
  get_1 : (a : ℕ) → a < 128 → util_get_varint (a ∷ rest) len ≡ some (a, len + 1)
  unfolding util_get_varint
  get_1 a h = ground (arith, mask_80 a, bit_and_mask 7 a)

  get_2 :
      (a b : ℕ)
      → a < 64
      → b < 256
      → util_get_varint ((a + 128) ∷ b ∷ rest) len ≡ some (a * 256 + b, len + 2)
  unfolding util_get_varint
  get_2 a b h k =
      ground
        (arith, mask_80 (a + 128), mask_c0 (a + 128), bit_and_mask 6 (a + 128), word_2-eq a b k)

  get_3 :
      (a b c : ℕ)
      → a < 32
      → b < 256
      → c < 256
      → util_get_varint ((a + 192) ∷ b ∷ c ∷ rest) len ≡ some ((a * 256 + b) * 256 + c, len + 3)
  unfolding util_get_varint
  get_3 a b c h k l = ground (
    arith,
    mask_80 (a + 192),
    mask_c0 (a + 192),
    mask_f0 (a + 192),
    mask_e0 (a + 192),
    bit_and_mask 5 (a + 192),
    word_3-eq a b c k l,
  )

  get_4 :
      (a b c d : ℕ)
      → a < 16
      → b < 256
      → c < 256
      → d < 256
      → util_get_varint ((a + 224) ∷ b ∷ c ∷ d ∷ rest) len
        ≡ some (((a * 256 + b) * 256 + c) * 256 + d, len + 4)
  unfolding util_get_varint
  get_4 a b c d h k l m = ground (
    arith,
    mask_80 (a + 224),
    mask_c0 (a + 224),
    mask_f0 (a + 224),
    bit_and_mask 4 (a + 224),
    word_4-eq a b c d k l m,
  )

  get_5 :
      (a b c d : ℕ)
      → b < 256
      → c < 256
      → d < 256
      → util_get_varint (0xf0 ∷ a ∷ b ∷ c ∷ d ∷ rest) len
        ≡ some (((a * 256 + b) * 256 + c) * 256 + d, len + 5)
  unfolding util_get_varint
  get_5 a b c d k l m = ground (arith, word_4-eq a b c d k l m)

  get_9 :
      (a b c d e f g h : ℕ)
      → b < 256
      → c < 256
      → d < 256
      → e < 256
      → f < 256
      → g < 256
      → h < 256
      → util_get_varint (0xf4 ∷ a ∷ b ∷ c ∷ d ∷ e ∷ f ∷ g ∷ h ∷ rest) len
        ≡ some (
          (((((((a * 256 + b) * 256 + c) * 256 + d) * 256 + e) * 256 + f) * 256 + g) * 256 + h),
          len + 9,
        )
  unfolding util_get_varint
  get_9 a b c d e f g h hb hc hd he hf hg hh = rw (word_8-eq a b c d e f g h hb hc hd he hf hg hh)

-- `set_bytes` by the size of the value, in arithmetic.
pub set_1 : (v : ℕ) → v < 0x80 → set_bytes v ≡ v ∷ []
unfolding set_bytes
set_1 v h = ground arith

pub set_2 : (v : ℕ) → 0x80 ≤ v → v < 0x4000 → set_bytes v ≡ (v / 256 + 128) ∷ v % 256 ∷ []
unfolding set_bytes
set_2 v h k = ground (arith, tag_80 (v / 256), low_byte v)

pub set_3 :
    (v : ℕ)
    → 0x4000 ≤ v
    → v < 0x200000
    → set_bytes v ≡ (v / 2 ^ 16 + 192) ∷ v / 256 % 256 ∷ v % 256 ∷ []
unfolding set_bytes
set_3 v h k = ground (arith, tag_c0 (v / 2 ^ 16), low_byte v, low_byte (v / 256))

pub set_4 :
    (v : ℕ)
    → 0x200000 ≤ v
    → v < 0x10000000
    → set_bytes v ≡ (v / 2 ^ 24 + 224) ∷ v / 2 ^ 16 % 256 ∷ v / 256 % 256 ∷ v % 256 ∷ []
unfolding set_bytes
set_4 v h k =
    ground (arith, tag_e0 (v / 2 ^ 24), low_byte v, low_byte (v / 256), low_byte (v / 2 ^ 16))

pub set_5 :
    (v : ℕ)
    → 0x10000000 ≤ v
    → v < 0x100000000
    → set_bytes v ≡ 0xf0 ∷ v / 2 ^ 24 % 256 ∷ v / 2 ^ 16 % 256 ∷ v / 256 % 256 ∷ v % 256 ∷ []
unfolding set_bytes
set_5 v h k =
    ground (arith, low_byte v, low_byte (v / 256), low_byte (v / 2 ^ 16), low_byte (v / 2 ^ 24))

pub set_9 :
    (v : ℕ)
    → 0x100000000 ≤ v
    → set_bytes v
      ≡ 0xf4
        ∷ v / 2 ^ 56 % 256
        ∷ v / 2 ^ 48 % 256
        ∷ v / 2 ^ 40 % 256
        ∷ v / 2 ^ 32 % 256
        ∷ v / 2 ^ 24 % 256
        ∷ v / 2 ^ 16 % 256
        ∷ v / 256 % 256
        ∷ v % 256
        ∷ []
unfolding set_bytes
set_9 v h =
    let a : ltb v 0x80 ≡ false = omega tests in
    let b : ltb v 0x4000 ≡ false = omega tests in
    let c : ltb v 0x200000 ≡ false = omega tests in
    let d : ltb v 0x10000000 ≡ false = omega tests in
    let e : ltb v 0x100000000 ≡ false = omega tests in
    rw (
      a,
      b,
      c,
      d,
      e,
      low_byte (v / 2 ^ 56),
      low_byte (v / 2 ^ 48),
      low_byte (v / 2 ^ 40),
      low_byte (v / 2 ^ 32),
      low_byte (v / 2 ^ 24),
      low_byte (v / 2 ^ 16),
      low_byte (v / 2 ^ 8),
      low_byte v,
    )

pub data Size (v : ℕ) : Type 0 where
  one : v < 0x80 → Size v
  two : 0x80 ≤ v → v < 0x4000 → Size v
  three : 0x4000 ≤ v → v < 0x200000 → Size v
  four : 0x200000 ≤ v → v < 0x10000000 → Size v
  five : 0x10000000 ≤ v → v < 0x100000000 → Size v
  nine : 0x100000000 ≤ v → Size v

pub sizes : (v : ℕ) → Size v
sizes v = elim (Bool-cases (ltb v 0x80)) [
  | inl a ↦ one (omega (tests, a))
  | inr a ↦ elim (Bool-cases (ltb v 0x4000)) [
    | inl b ↦ two (omega (tests, a)) (omega (tests, b))
    | inr b ↦ elim (Bool-cases (ltb v 0x200000)) [
      | inl c ↦ three (omega (tests, b)) (omega (tests, c))
      | inr c ↦ elim (Bool-cases (ltb v 0x10000000)) [
        | inl d ↦ four (omega (tests, c)) (omega (tests, d))
        | inr d ↦ elim (Bool-cases (ltb v 0x100000000)) [
          | inl e ↦ five (omega (tests, d)) (omega (tests, e))
          | inr e ↦ nine (omega (tests, e))
        ]
      ]
    ]
  ]
]

-- `util_get_varint` reads back the 64-bit value that `util_set_varint` stored, whatever follows it,
-- and advances `*len` by the number of bytes stored.
pub get-set :
    (v len : ℕ) (rest : List ℕ)
    → v < 2 ^ 64
    → util_get_varint (set_bytes v ++ rest) len ≡ some (v, len + length (set_bytes v))
get-set v len rest h = elim (sizes v) [
  | one a ↦ rw (set_1 v a) (get_1 rest len v a)
  | two a b ↦ rw (set_2 v a b) (
      get_2 rest len (v / 256) (v % 256) (omega arith) (omega arith)
      ∙ ap (λ (t : ℕ). some (t, len + 2)) (omega arith))
  | three a b ↦ rw (set_3 v a b) (
      get_3 rest len (v / 2 ^ 16) (v / 256 % 256) (v % 256) (omega arith) (omega arith)
        (omega arith)
      ∙ ap (λ (t : ℕ). some (t, len + 3)) (omega arith))
  | four a b ↦ rw (set_4 v a b) (
      get_4 rest len (v / 2 ^ 24) (v / 2 ^ 16 % 256) (v / 256 % 256) (v % 256) (omega arith)
        (omega arith) (omega arith) (omega arith)
      ∙ ap (λ (t : ℕ). some (t, len + 4)) (omega arith))
  | five a b ↦ rw (set_5 v a b) (
      get_5 rest len (v / 2 ^ 24 % 256) (v / 2 ^ 16 % 256) (v / 256 % 256) (v % 256) (omega arith)
        (omega arith) (omega arith)
      ∙ ap (λ (t : ℕ). some (t, len + 5)) (omega arith))
  | nine a ↦ rw (set_9 v a) (
      get_9 rest len (v / 2 ^ 56 % 256) (v / 2 ^ 48 % 256) (v / 2 ^ 40 % 256) (v / 2 ^ 32 % 256)
        (v / 2 ^ 24 % 256) (v / 2 ^ 16 % 256) (v / 256 % 256) (v % 256) (omega arith) (omega arith)
        (omega arith) (omega arith) (omega arith) (omega arith) (omega arith)
      ∙ ap (λ (t : ℕ). some (t, len + 9)) (omega arith))
]
