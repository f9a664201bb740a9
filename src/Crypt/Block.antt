-- ===== src/Crypt/Block.antt =====
-- mumble/ocb.c, the arithmetic on blocks (LP64 build). A `keyblock` is the list of its 16 bytes in
-- memory order. `XOR` works on 64-bit halves, which is the same as byte by byte; `SWAPPED` loads
-- and stores a half with the most significant byte first.
pub mod Laws
pub mod Doubling
use lua_mumble.Base.{
  ℕ, zero, suc, ◌+◌, ◌*◌, ◌^◌, List, [], ◌∷◌, ◌++◌, take, drop, replicate, bit_or, bit_xor, u8, u64,
  ◌<<◌, ◌>>◌, length,
}

abbrev pub block_size : ℕ
block_size = 16

unfoldable pub xor_bytes : List ℕ → List ℕ → List ℕ
xor_bytes [] ys = []
xor_bytes (x ∷ xs) [] = []
xor_bytes (x ∷ xs) (y ∷ ys) = bit_xor x y ∷ xor_bytes xs ys

-- The number that bytes spell, the most significant first.
unfoldable pub be_from : ℕ → List ℕ → ℕ
be_from acc [] = acc
be_from acc (b ∷ bs) = be_from (acc * 256 + b) bs

abbrev pub be : List ℕ → ℕ
be bs = be_from 0 bs

-- The `n` bytes that spell a number below `256 ^ n`, the most significant first.
unfoldable pub to_be : ℕ → ℕ → List ℕ
to_be zero x = []
to_be (suc n) x = to_be n (x >> 8) ++ (u8 x ∷ [])

-- The two halves after the shift of `S2`: the carry out of the block comes back as 0x87.
unfoldable pub doubled_high : List ℕ → ℕ
doubled_high block = bit_or (u64 (be (take 8 block) << 1)) (be (drop 8 block) >> 63)

unfoldable pub doubled_low : List ℕ → ℕ
doubled_low block =
    let carry = be (take 8 block) >> 63 in bit_xor (u64 (be (drop 8 block) << 1)) (carry * 0x87)

unfoldable pub s2 : List ℕ → List ℕ
unfolding doubled_high doubled_low
s2 block = to_be 8 (doubled_high block) ++ to_be 8 (doubled_low block)

-- `S3` reads each half before it changes it.
unfoldable pub s3 : List ℕ → List ℕ
unfolding doubled_high doubled_low
s3 block = xor_bytes block (to_be 8 (doubled_high block) ++ to_be 8 (doubled_low block))

-- `tmp` after `ZERO(&tmp); tmp[BLOCKSIZE - 1] = SWAPPED(len * 8)`.
unfoldable pub length_block : ℕ → List ℕ
length_block len = replicate 8 0 ++ to_be 8 (u64 (len * 8))

-- `*(subblock*)tmp ^= 1` on a little-endian machine.
unfoldable pub flip_bit : List ℕ → List ℕ
flip_bit [] = []
flip_bit (b ∷ bs) = bit_xor b 1 ∷ bs
