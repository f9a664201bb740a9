-- ===== src/Crypt/Block/Doubling.antt =====
-- mumble/ocb.c: `S2` and `S3` are the products by x and x + 1 in the field of 2 ^ 128 elements, with
-- a block read as a number, its first byte the most significant.
use lua_mumble.Base.{
  ℕ, zero, suc, ◌+◌, ◌-◌, ◌*◌, ◌/◌, ◌%◌, ◌^◌, ◌<◌, List, [], ◌∷◌, ◌++◌, take, drop, length, bit_or,
  bit_xor, All, All-take, All-drop, IsByte, ◌≡◌, refl, sym, ap, ◌∙◌, arith, ltb, tests,
  if◌then◌else◌, length-take, length-drop, take-append-drop, Bool-cases, inl, inr,
}
use lua_mumble.Base.Bits.{bit_or_fields, bit_xor_low, bit_xor_comm, zero-bit_xor, bit_xor-lt}
use lua_mumble.Crypt.Block.{xor_bytes, be_from, be, to_be, doubled_high, doubled_low, s2, s3}
use lua_mumble.Crypt.Block.Laws.{IsBlock}
use native.Mathlib.Nat.{pow-suc}

be_from-append : (acc : ℕ) (xs ys : List ℕ) → be_from acc (xs ++ ys) ≡ be_from (be_from acc xs) ys
unfolding be_from
be_from-append acc [] ys = refl
be_from-append acc (x ∷ xs) ys = be_from-append (acc * 256 + x) xs ys

-- Storing a number and loading it is the identity on `n` bytes.
be_from-to_be : (n acc x : ℕ) → x < 256 ^ n → be_from acc (to_be n x) ≡ acc * 256 ^ n + x
unfolding be_from to_be
be_from-to_be zero acc x h = omega arith
be_from-to_be (suc n) acc x h =
    be_from-append acc (to_be n (x / 256)) (x % 256 ∷ [])
    ∙ omega (
      arith,
      be_from-to_be n acc (x / 256) (omega (arith, pow-suc 256 n)),
      ap (λ (t : ℕ). acc * t) (pow-suc 256 n),
    )

be-cons : (x : ℕ) (xs : List ℕ) → be (x ∷ xs) ≡ be_from x xs
unfolding be_from
be-cons x xs = ap (λ (t : ℕ). be_from t xs) (omega arith)

be_from-acc : (acc : ℕ) (xs : List ℕ) → be_from acc xs ≡ acc * 256 ^ length xs + be xs
unfolding be_from
be_from-acc acc [] = omega arith
be_from-acc acc (x ∷ xs) = omega (
  arith,
  be_from-acc (acc * 256 + x) xs,
  be_from-acc x xs,
  be-cons x xs,
  pow-suc 256 (length xs),
  ap (λ (t : ℕ). acc * t) (pow-suc 256 (length xs)),
)

digit-lt : (x k p low : ℕ) → x + k ≡ 255 → low < p → x * p + low < 256 * p
digit-lt x k p low e h = omega (arith, ap (λ (t : ℕ). t * p) e)

be-lt : (xs : List ℕ) → All IsByte xs → be xs < 256 ^ length xs
be-lt [] h = unfold be_from in omega arith
be-lt (x ∷ xs) h = omega (
  arith,
  be-cons x xs,
  be_from-acc x xs,
  digit-lt x (255 - x) (256 ^ length xs) (be xs) (omega arith) (be-lt xs h.1),
  pow-suc 256 (length xs),
)

-- The two halves of a block as numbers.
record Halves (b : List ℕ) : Type 0 where
  high_lt : be (take 8 b) < 2 ^ 64
  low_lt : be (drop 8 b) < 2 ^ 64
  whole : be b ≡ be (take 8 b) * 2 ^ 64 + be (drop 8 b)

IsBlock-Halves : (b : List ℕ) → IsBlock b → Halves b
IsBlock-Halves b h =
    let top : length (take 8 b) ≡ 8 = omega (arith, length-take 8 b, h.full) in
    let bot : length (drop 8 b) ≡ 8 = omega (arith, length-drop 8 b, h.full) in
    record {
      high_lt = rw top at (be-lt (take 8 b) (All-take IsByte 8 b h.bytes));
      low_lt = rw bot at (be-lt (drop 8 b) (All-drop IsByte 8 b h.bytes));
      whole =
          ap be (sym (take-append-drop 8 b))
          ∙ be_from-append 0 (take 8 b) (drop 8 b)
          ∙ be_from-acc (be (take 8 b)) (drop 8 b)
          ∙ ap (λ (t : ℕ). be (take 8 b) * 256 ^ t + be (drop 8 b)) bot;
    }

be-pair : (x y : ℕ) → x < 2 ^ 64 → y < 2 ^ 64 → be (to_be 8 x ++ to_be 8 y) ≡ x * 2 ^ 64 + y
be-pair x y p q =
    be_from-append 0 (to_be 8 x) (to_be 8 y)
    ∙ ap (λ (t : ℕ). be_from t (to_be 8 y)) (be_from-to_be 8 0 x p)
    ∙ be_from-to_be 8 (0 * 256 ^ 8 + x) y q
    ∙ omega arith

doubled_high-eq :
    (b : List ℕ)
    → be (drop 8 b) < 2 ^ 64
    → doubled_high b ≡ be (take 8 b) * 2 % 2 ^ 64 + be (drop 8 b) / 2 ^ 63
unfolding doubled_high
doubled_high-eq b h =
    let x = be (take 8 b) in
    let e : x * 2 % 2 ^ 64 ≡ x * 2 % 2 ^ 64 / 2 * 2 ^ 1 = omega arith in
    ap (λ (t : ℕ). bit_or t (be (drop 8 b) / 2 ^ 63)) e
    ∙ bit_or_fields 1 (x * 2 % 2 ^ 64 / 2) (be (drop 8 b) / 2 ^ 63) (omega arith)
    ∙ omega arith

-- The product by x in the field: shifted left by one, and where a bit falls out, reduced by the
-- polynomial 0x87.
pub times_x : ℕ → ℕ
times_x n = if ltb n (2 ^ 127) then n * 2 else bit_xor (n * 2 - 2 ^ 128) 0x87

-- The two halves of the product, put together.
pair-times_x :
    (high low : ℕ)
    → high < 2 ^ 64
    → low < 2 ^ 64
    → (high * 2 % 2 ^ 64 + low / 2 ^ 63) * 2 ^ 64
        + bit_xor (low * 2 % 2 ^ 64) (high / 2 ^ 63 * 0x87)
      ≡ times_x (high * 2 ^ 64 + low)
unfolding times_x
pair-times_x high low p q = elim (Bool-cases (ltb (high * 2 ^ 64 + low) (2 ^ 127))) [
  | inl small ↦
      let no_carry : high / 2 ^ 63 * 0x87 ≡ 0 = omega (tests, small) in
      rw (small, no_carry, bit_xor_comm (low * 2 % 2 ^ 64) 0, zero-bit_xor (low * 2 % 2 ^ 64))
        (omega (tests, small))
  | inr large ↦
      let carry : high / 2 ^ 63 * 0x87 ≡ 0x87 = omega (tests, large) in
      let parts : (high * 2 ^ 64 + low) * 2 - 2 ^ 128
          ≡ (high * 2 % 2 ^ 64 + low / 2 ^ 63) * 2 ^ 64 + low * 2 % 2 ^ 64 =
        omega (tests, large) in
      rw (large, carry, parts)
        (sym (
          bit_xor_low 64 (high * 2 % 2 ^ 64 + low / 2 ^ 63) (low * 2 % 2 ^ 64) 0x87 (omega arith)
            (omega arith)))
]

-- `S2` of a block is the product by x.
pub be-s2 : (b : List ℕ) → IsBlock b → be (s2 b) ≡ times_x (be b)
unfolding s2 doubled_low
be-s2 b h =
    let parts = IsBlock-Halves b h in
    let high = be (take 8 b) in
    let low = be (drop 8 b) in
    let high_part : doubled_high b ≡ high * 2 % 2 ^ 64 + low / 2 ^ 63 =
      doubled_high-eq b parts.low_lt in
    rw (parts.whole, high_part)
      (be-pair (high * 2 % 2 ^ 64 + low / 2 ^ 63)
          (bit_xor (low * 2 % 2 ^ 64) (high / 2 ^ 63 * 0x87)) (omega arith)
          (bit_xor-lt 64 (low * 2 % 2 ^ 64) (high / 2 ^ 63 * 0x87) (omega arith)
            (omega (arith, parts.high_lt)))
        ∙ pair-times_x high low parts.high_lt parts.low_lt)

-- `S3` of a block is its sum with the product by x.
pub s3_lem : (b : List ℕ) → s3 b ≡ xor_bytes b (s2 b)
unfolding s3 s2
s3_lem b = refl
