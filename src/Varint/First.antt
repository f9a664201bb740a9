-- ===== src/Varint/First.antt =====
-- mumble/audio.c: the masks on the first byte of a varint as arithmetic, and how bytes join to a word.
use lua_mumble.Base.{ℕ, ◌+◌, ◌*◌, ◌/◌, ◌^◌, ◌<◌, ◌≡◌, refl, bit_and, bit_or, ◌<<◌, arith, ap, ◌∙◌}
use lua_mumble.Base.Bits.{bit_or_fields}
use lua_mumble.Base.Bits.Table.{agree_below, agree_below→eq}
use lua_mumble.Varint.{word_2, word_3, word_4, word_8}

pub mask_80 : (v : ℕ) → v < 256 → bit_and v 0x80 ≡ v / 128 * 128
unfolding agree_below
mask_80 v h = agree_below→eq (λ n. bit_and n 0x80) (λ n. n / 128 * 128) 256 refl v h

pub mask_c0 : (v : ℕ) → v < 256 → bit_and v 0xc0 ≡ v / 64 * 64
unfolding agree_below
mask_c0 v h = agree_below→eq (λ n. bit_and n 0xc0) (λ n. n / 64 * 64) 256 refl v h

pub mask_e0 : (v : ℕ) → v < 256 → bit_and v 0xe0 ≡ v / 32 * 32
unfolding agree_below
mask_e0 v h = agree_below→eq (λ n. bit_and n 0xe0) (λ n. n / 32 * 32) 256 refl v h

pub mask_f0 : (v : ℕ) → v < 256 → bit_and v 0xf0 ≡ v / 16 * 16
unfolding agree_below
mask_f0 v h = agree_below→eq (λ n. bit_and n 0xf0) (λ n. n / 16 * 16) 256 refl v h

pub tag_80 : (v : ℕ) → v < 64 → bit_or v 0x80 ≡ v + 128
unfolding agree_below
tag_80 v h = agree_below→eq (λ n. bit_or n 0x80) (λ n. n + 128) 64 refl v h

pub tag_c0 : (v : ℕ) → v < 32 → bit_or v 0xc0 ≡ v + 192
unfolding agree_below
tag_c0 v h = agree_below→eq (λ n. bit_or n 0xc0) (λ n. n + 192) 32 refl v h

pub tag_e0 : (v : ℕ) → v < 16 → bit_or v 0xe0 ≡ v + 224
unfolding agree_below
tag_e0 v h = agree_below→eq (λ n. bit_or n 0xe0) (λ n. n + 224) 16 refl v h

-- `|` of a word with zeros below bit `k` and one that fits there.
join : (k x q r : ℕ) → x ≡ q * 2 ^ k → r < 2 ^ k → bit_or x r ≡ x + r
join k x q r e h = rw e (bit_or_fields k q r h)

pub word_2-eq : (a b : ℕ) → b < 256 → word_2 a b ≡ a * 256 + b
word_2-eq a b h = bit_or_fields 8 a b h

pub word_3-eq : (a b c : ℕ) → b < 256 → c < 256 → word_3 a b c ≡ (a * 256 + b) * 256 + c
word_3-eq a b c h k =
    ap (λ (t : ℕ). bit_or t c) (bit_or_fields 16 a (b << 8) (omega arith))
    ∙ join 8 (a * 2 ^ 16 + b * 2 ^ 8) (a * 256 + b) c (omega arith) k
    ∙ omega arith

pub word_4-eq :
    (a b c d : ℕ)
    → b < 256
    → c < 256
    → d < 256
    → word_4 a b c d ≡ ((a * 256 + b) * 256 + c) * 256 + d
word_4-eq a b c d hb hc hd =
    ap (λ (t : ℕ). bit_or (bit_or t (c << 8)) d) (bit_or_fields 24 a (b << 16) (omega arith))
    ∙ ap (λ (t : ℕ). bit_or t d)
        (join 16 (a * 2 ^ 24 + b * 2 ^ 16) (a * 256 + b) (c << 8) (omega arith) (omega arith))
    ∙ join 8 (a * 2 ^ 24 + b * 2 ^ 16 + c * 2 ^ 8) ((a * 256 + b) * 256 + c) d (omega arith) hd
    ∙ omega arith

-- The upper four bytes of `word_8`, and the whole.
upper_4 :
    (a b c d : ℕ)
    → b < 256
    → c < 256
    → d < 256
    → bit_or (bit_or (bit_or (a << 56) (b << 48)) (c << 40)) (d << 32)
      ≡ (((a * 256 + b) * 256 + c) * 256 + d) * 2 ^ 32
upper_4 a b c d hb hc hd =
    ap (λ (t : ℕ). bit_or (bit_or t (c << 40)) (d << 32))
      (bit_or_fields 56 a (b << 48) (omega arith))
    ∙ ap (λ (t : ℕ). bit_or t (d << 32))
        (join 48 (a * 2 ^ 56 + b * 2 ^ 48) (a * 256 + b) (c << 40) (omega arith) (omega arith))
    ∙ join 40 (a * 2 ^ 56 + b * 2 ^ 48 + c * 2 ^ 40) ((a * 256 + b) * 256 + c) (d << 32)
        (omega arith) (omega arith)
    ∙ omega arith

lower_4 :
    (u e f g h : ℕ)
    → e < 256
    → f < 256
    → g < 256
    → h < 256
    → bit_or (bit_or (bit_or (bit_or (u * 2 ^ 32) (e << 24)) (f << 16)) (g << 8)) h
      ≡ (((u * 256 + e) * 256 + f) * 256 + g) * 256 + h
lower_4 u e f g h he hf hg hh =
    ap (λ (t : ℕ). bit_or (bit_or (bit_or t (f << 16)) (g << 8)) h)
      (bit_or_fields 32 u (e << 24) (omega arith))
    ∙ ap (λ (t : ℕ). bit_or (bit_or t (g << 8)) h)
        (join 24 (u * 2 ^ 32 + e * 2 ^ 24) (u * 256 + e) (f << 16) (omega arith) (omega arith))
    ∙ ap (λ (t : ℕ). bit_or t h)
        (join 16 (u * 2 ^ 32 + e * 2 ^ 24 + f * 2 ^ 16) ((u * 256 + e) * 256 + f) (g << 8)
          (omega arith) (omega arith))
    ∙ join 8 (u * 2 ^ 32 + e * 2 ^ 24 + f * 2 ^ 16 + g * 2 ^ 8)
        (((u * 256 + e) * 256 + f) * 256 + g) h (omega arith) hh
    ∙ omega arith

pub word_8-eq :
    (a b c d e f g h : ℕ)
    → b < 256
    → c < 256
    → d < 256
    → e < 256
    → f < 256
    → g < 256
    → h < 256
    → word_8 a b c d e f g h
      ≡ (((((((a * 256 + b) * 256 + c) * 256 + d) * 256 + e) * 256 + f) * 256 + g) * 256 + h)
word_8-eq a b c d e f g h hb hc hd he hf hg hh =
    ap (λ (t : ℕ). bit_or (bit_or (bit_or (bit_or t (e << 24)) (f << 16)) (g << 8)) h)
      (upper_4 a b c d hb hc hd)
    ∙ lower_4 (((a * 256 + b) * 256 + c) * 256 + d) e f g h he hf hg hh

pub mask_fc : (v : ℕ) → v < 256 → bit_and v 0xfc ≡ v / 4 * 4
unfolding agree_below
mask_fc v h = agree_below→eq (λ n. bit_and n 0xfc) (λ n. n / 4 * 4) 256 refl v h

pub tag_fc : (v : ℕ) → v < 4 → bit_or 0xfc v ≡ v + 252
unfolding agree_below
tag_fc v h = agree_below→eq (λ n. bit_or 0xfc n) (λ n. n + 252) 4 refl v h
