-- ===== src/Buffer/VarInt/Read.antt =====
-- mumble/buffer.c: reading the bytes of a varint from the contents of a buffer.
use lua_mumble.Base.{
  get_or, length-take, ◌==◌, length-drop, Option, load, ℕ, ◌+◌, ◌*◌, ◌≤◌, ◌<◌, List, [], ◌∷◌, ◌++◌,
  some, length, take, drop, ◌≡◌, refl, ap, ◌∙◌, arith, ltb, tests, true, false, u64, length-append,
  take-append, drop-append, bit_and,
}
use lua_mumble.Base.Bits.{bit_and_mask}
use lua_mumble.Varint.{word_2}
use lua_mumble.Varint.First.{
  mask_80, mask_c0, mask_e0, mask_f0, word_2-eq, word_3-eq, word_4-eq, word_8-eq,
}
use lua_mumble.Buffer.{ByteBuffer}
use lua_mumble.Buffer.Contents.{IsValid, contents}
use lua_mumble.Buffer.Reading.{advanced, unread, advanced-IsValid, front-eq, contents-advanced}
use lua_mumble.Buffer.Storage.{load-eq}
use lua_mumble.Buffer.VarInt.{word_3, word_8, word_4, with_bytes, read_form}

-- The contents begin with `bytes`, and what follows is `rest`.
pub record Begins (b : ByteBuffer) (bytes rest : List ℕ) : Type 0 where
  pub valid : IsValid b
  pub front : contents b ≡ bytes ++ rest

module _ (b : ByteBuffer) (bytes rest : List ℕ) (h : Begins b bytes rest) where
  pub begins-length : length bytes ≤ unread b
  begins-length =
      let size : length (contents b) ≡ length bytes + length rest =
        ap (λ (t : List ℕ). length t) h.front ∙ length-append bytes rest in
      omega (
        arith,
        size,
        length-drop b.read_head (take b.write_head b.mem),
        length-take b.write_head b.mem,
      )

  pub begins-small : u64 (b.read_head + length bytes) ≡ b.read_head + length bytes
  begins-small = omega (arith, begins-length, h.valid.ordered, h.valid.within, h.valid.small)

  pub begins-available : ltb b.write_head (b.read_head + length bytes) ≡ false
  begins-available = omega (tests, begins-length, h.valid.ordered)

  pub begins-load : load b.mem b.read_head (length bytes) ≡ some bytes
  begins-load =
      load-eq b.mem b.read_head (length bytes)
        (omega (arith, begins-length, h.valid.ordered, h.valid.within, h.valid.allocated))
      ∙ ap some (
          front-eq b (length bytes) h.valid begins-length
          ∙ ap (take (length bytes)) h.front
          ∙ take-append (length bytes) bytes rest refl)

  pub Begins-rest : Begins (advanced b (length bytes)) [] rest
  Begins-rest = record {
    valid = advanced-IsValid b (length bytes) h.valid begins-length;
    front =
        contents-advanced b (length bytes)
        ∙ ap (drop (length bytes)) h.front
        ∙ drop-append (length bytes) bytes rest refl;
  }

  with_bytes_lem :
      (n : ℕ) (value : List ℕ → ℕ) (size : ℕ)
      → n ≡ length bytes
      → with_bytes b n value size ≡ some (advanced b n, value bytes, size)
  unfolding with_bytes
  with_bytes_lem n value size e = rw (e, begins-small, begins-available, begins-load) refl

-- The form of the number that follows its first byte.
module _ (inner : Option (ByteBuffer × ℕ × ℕ)) (b : ByteBuffer) (rest : List ℕ) where
  pub form_1 : (a : ℕ) → a < 128 → read_form inner b a ≡ some (b, a, 1)
  unfolding read_form
  form_1 a h =
      let t_1 : (bit_and a 0x80 == 0) ≡ true = ground (arith, mask_80 a) in
      rw t_1 (ap (λ (t : ℕ). some (b, t, 1)) (bit_and_mask 7 a ∙ omega arith))

  pub form_2 :
      (a c : ℕ)
      → a < 64
      → c < 256
      → Begins b (c ∷ []) rest
      → read_form inner b (a + 128) ≡ some (advanced b 1, a * 256 + c, 2)
  unfolding read_form
  form_2 a c h k g =
      let t_1 : (bit_and (a + 128) 0x80 == 0) ≡ false = ground (arith, mask_80 (a + 128)) in
      let t_2 : (bit_and (a + 128) 0xc0 == 0x80) ≡ true = ground (arith, mask_c0 (a + 128)) in
      let low : bit_and (a + 128) 0x3f ≡ a = omega (arith, bit_and_mask 6 (a + 128)) in
      rw (t_1, t_2, low, with_bytes_lem b (c ∷ []) rest g 1 (λ s. word_2 a (get_or s 0 0)) 2 refl)
        (ap (λ (t : ℕ). some (advanced b 1, t, 2)) (word_2-eq a c k))

  pub form_3 :
      (a c d : ℕ)
      → a < 32
      → c < 256
      → d < 256
      → Begins b (c ∷ d ∷ []) rest
      → read_form inner b (a + 192) ≡ some (advanced b 2, (a * 256 + c) * 256 + d, 3)
  unfolding read_form
  form_3 a c d h k l g =
      let t_1 : (bit_and (a + 192) 0x80 == 0) ≡ false = ground (arith, mask_80 (a + 192)) in
      let t_2 : (bit_and (a + 192) 0xc0 == 0x80) ≡ false = ground (arith, mask_c0 (a + 192)) in
      let t_3 : (bit_and (a + 192) 0xf0 == 0xf0) ≡ false = ground (arith, mask_f0 (a + 192)) in
      let t_4 : (bit_and (a + 192) 0xf0 == 0xe0) ≡ false = ground (arith, mask_f0 (a + 192)) in
      let t_5 : (bit_and (a + 192) 0xe0 == 0xc0) ≡ true = ground (arith, mask_e0 (a + 192)) in
      let low : bit_and (a + 192) 0x1f ≡ a = omega (arith, bit_and_mask 5 (a + 192)) in
      rw
        (
          t_1,
          t_2,
          t_3,
          t_4,
          t_5,
          low,
          with_bytes_lem b (c ∷ d ∷ []) rest g 2 (λ s. word_3 a (get_or s 0 0) (get_or s 1 0)) 3
              refl,
        )
        (ap (λ (t : ℕ). some (advanced b 2, t, 3)) (word_3-eq a c d k l))

  pub form_4 :
      (a c d e : ℕ)
      → a < 16
      → c < 256
      → d < 256
      → e < 256
      → Begins b (c ∷ d ∷ e ∷ []) rest
      → read_form inner b (a + 224) ≡ some (advanced b 3, ((a * 256 + c) * 256 + d) * 256 + e, 4)
  unfolding read_form
  form_4 a c d e h k l m g =
      let t_1 : (bit_and (a + 224) 0x80 == 0) ≡ false = ground (arith, mask_80 (a + 224)) in
      let t_2 : (bit_and (a + 224) 0xc0 == 0x80) ≡ false = ground (arith, mask_c0 (a + 224)) in
      let t_3 : (bit_and (a + 224) 0xf0 == 0xf0) ≡ false = ground (arith, mask_f0 (a + 224)) in
      let t_4 : (bit_and (a + 224) 0xf0 == 0xe0) ≡ true = ground (arith, mask_f0 (a + 224)) in
      let low : bit_and (a + 224) 0x0f ≡ a = omega (arith, bit_and_mask 4 (a + 224)) in
      rw
        (
          t_1,
          t_2,
          t_3,
          t_4,
          low,
          with_bytes_lem b (c ∷ d ∷ e ∷ []) rest g 3
              (λ s. word_4 a (get_or s 0 0) (get_or s 1 0) (get_or s 2 0)) 4 refl,
        )
        (ap (λ (t : ℕ). some (advanced b 3, t, 4)) (word_4-eq a c d e k l m))

  pub form_5 :
      (a c d e : ℕ)
      → c < 256
      → d < 256
      → e < 256
      → Begins b (a ∷ c ∷ d ∷ e ∷ []) rest
      → read_form inner b 0xf0 ≡ some (advanced b 4, ((a * 256 + c) * 256 + d) * 256 + e, 5)
  unfolding read_form
  form_5 a c d e k l m g =
      with_bytes_lem b (a ∷ c ∷ d ∷ e ∷ []) rest g 4
        (λ s. word_4 (get_or s 0 0) (get_or s 1 0) (get_or s 2 0) (get_or s 3 0)) 5 refl
      ∙ ap (λ (t : ℕ). some (advanced b 4, t, 5)) (word_4-eq a c d e k l m)

  pub form_9 :
      (c d e f g h i j : ℕ)
      → d < 256
      → e < 256
      → f < 256
      → g < 256
      → h < 256
      → i < 256
      → j < 256
      → Begins b (c ∷ d ∷ e ∷ f ∷ g ∷ h ∷ i ∷ j ∷ []) rest
      → read_form inner b 0xf4
        ≡ some (
          advanced b 8,
          (((((((c * 256 + d) * 256 + e) * 256 + f) * 256 + g) * 256 + h) * 256 + i) * 256 + j),
          9,
        )
  unfolding read_form
  form_9 c d e f g h i j hd he hf hg hh hi hj k =
      with_bytes_lem b (c ∷ d ∷ e ∷ f ∷ g ∷ h ∷ i ∷ j ∷ []) rest k 8
        (λ s.
          word_8 (get_or s 0 0) (get_or s 1 0) (get_or s 2 0) (get_or s 3 0) (get_or s 4 0)
            (get_or s 5 0) (get_or s 6 0) (get_or s 7 0))
        9 refl
      ∙ ap (λ (t : ℕ). some (advanced b 8, t, 9)) (word_8-eq c d e f g h i j hd he hf hg hh hi hj)
