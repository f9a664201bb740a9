-- ===== src/Crypt/Block/Laws.antt =====
-- mumble/ocb.c, the arithmetic on blocks: lengths, bytes, and the laws of XOR.
use lua_mumble.Base.{
  ℕ, zero, suc, ◌+◌, ◌*◌, ◌/◌, List, [], ◌∷◌, ◌++◌, take, drop, replicate, bit_xor, length,
  length-append, All, All-append, IsByte, ◌≡◌, refl, ap, ap₂, ◌∙◌, arith, u64,
}
use lua_mumble.Base.Bits.{
  bit_xor_comm, bit_xor_assoc, bit_xor_self, bit_xor_cancel, zero-bit_xor, bit_xor-lt,
}
use lua_mumble.Crypt.Block.{
  xor_bytes, to_be, doubled_high, doubled_low, s2, s3, length_block, flip_bit,
}

pub record IsBlock (b : List ℕ) : Type 0 where
  pub full : length b ≡ 16
  pub bytes : All IsByte b

pub length-xor : (xs ys : List ℕ) → length xs ≡ length ys → length (xor_bytes xs ys) ≡ length xs
unfolding xor_bytes
length-xor [] ys h = refl
length-xor (x ∷ xs) [] h = absurd (omega arith)
length-xor (x ∷ xs) (y ∷ ys) h = ap suc (length-xor xs ys (omega arith))

xor-bytes : (xs ys : List ℕ) → All IsByte xs → All IsByte ys → All IsByte (xor_bytes xs ys)
unfolding xor_bytes
xor-bytes [] ys p q = tt
xor-bytes (x ∷ xs) [] p q = tt
xor-bytes (x ∷ xs) (y ∷ ys) p q = (bit_xor-lt 8 x y p.0 q.0, xor-bytes xs ys p.1 q.1)

pub xor-IsBlock : (xs ys : List ℕ) → IsBlock xs → IsBlock ys → IsBlock (xor_bytes xs ys)
xor-IsBlock xs ys p q = record {
  full = length-xor xs ys (omega (arith, p.full, q.full)) ∙ p.full;
  bytes = xor-bytes xs ys p.bytes q.bytes;
}

-- What is put on a block with `XOR` comes off with `XOR`.
pub xor_cancel : (d x : List ℕ) → length x ≡ length d → xor_bytes d (xor_bytes d x) ≡ x
unfolding xor_bytes
xor_cancel [] [] h = refl
xor_cancel [] (x ∷ xs) h = absurd (omega arith)
xor_cancel (b ∷ d) [] h = refl
xor_cancel (b ∷ d) (x ∷ xs) h = ap₂ ◌∷◌ (bit_xor_cancel b x) (xor_cancel d xs (omega arith))

pub length-to_be : (n x : ℕ) → length (to_be n x) ≡ n
unfolding to_be
length-to_be zero x = refl
length-to_be (suc n) x = rw (length-append, length-to_be n) (omega arith)

to_be-bytes : (n x : ℕ) → All IsByte (to_be n x)
unfolding to_be
to_be-bytes zero x = tt
to_be-bytes (suc n) x =
    All-append IsByte (to_be n (x / 256)) _ (to_be-bytes n (x / 256)) (omega arith, tt)

pair-IsBlock : (x y : ℕ) → IsBlock (to_be 8 x ++ to_be 8 y)
pair-IsBlock x y = record {
  full = rw (length-append, length-to_be 8 x, length-to_be 8 y);
  bytes = All-append IsByte (to_be 8 x) (to_be 8 y) (to_be-bytes 8 x) (to_be-bytes 8 y);
}

pub s2-IsBlock : (b : List ℕ) → IsBlock (s2 b)
unfolding s2
s2-IsBlock b = pair-IsBlock (doubled_high b) (doubled_low b)

pub s3-IsBlock : (b : List ℕ) → IsBlock b → IsBlock (s3 b)
unfolding s3
s3-IsBlock b h = xor-IsBlock b _ h (pair-IsBlock (doubled_high b) (doubled_low b))

pub length_block-IsBlock : (n : ℕ) → IsBlock (length_block n)
unfolding length_block
length_block-IsBlock n = record {
  full = rw (length-append, length-to_be 8 (u64 (n * 8)));
  bytes = All-append IsByte (replicate 8 0) _ (omega arith) (to_be-bytes 8 (u64 (n * 8)));
}

pub flip-IsBlock : (b : List ℕ) → IsBlock b → IsBlock (flip_bit b)
unfolding flip_bit
flip-IsBlock [] h = h
flip-IsBlock (b ∷ bs) h = record {
  full = h.full;
  bytes = (bit_xor-lt 8 b 1 h.bytes.0 (omega arith), h.bytes.1);
}

-- A flipped bit passes through `XOR`.
pub xor-flip : (d x : List ℕ) → flip_bit (xor_bytes d x) ≡ xor_bytes d (flip_bit x)
unfolding flip_bit xor_bytes
xor-flip [] x = refl
xor-flip (b ∷ d) [] = refl
xor-flip (b ∷ d) (x ∷ xs) = ap (λ t. t ∷ xor_bytes d xs) (bit_xor_assoc b x 1)

pub length-flip : (b : List ℕ) → length (flip_bit b) ≡ length b
unfolding flip_bit
length-flip [] = refl
length-flip (b ∷ bs) = refl

-- The last block: what `crypt_ocb_encrypt` makes of `p` and the pad, zero-extended and put to the
-- pad again, is the block that it added to its checksum.
pub xor_last :
    (p pad : List ℕ) (k : ℕ)
    → length p + k ≡ length pad
    → xor_bytes (take (length p) (xor_bytes pad (p ++ drop (length p) pad)) ++ replicate k 0) pad
      ≡ p ++ drop (length p) pad
unfolding xor_bytes
xor_last [] pad k h = let e : k ≡ length pad = omega arith in rw e (zeros pad)
  where
    zeros : (xs : List ℕ) → xor_bytes (replicate (length xs) 0) xs ≡ xs
    zeros [] = refl
    zeros (x ∷ xs) = ap₂ ◌∷◌ (zero-bit_xor x) (zeros xs)
xor_last (x ∷ p) [] k h = absurd (omega arith)
xor_last (x ∷ p) (d ∷ pad) k h = ap₂ ◌∷◌ there (xor_last p pad k (omega arith))
  where
    there : bit_xor (bit_xor d x) d ≡ x
    there =
        rw (bit_xor_comm d x, bit_xor_assoc x d d, bit_xor_self d, bit_xor_comm x 0)
          (zero-bit_xor x)
