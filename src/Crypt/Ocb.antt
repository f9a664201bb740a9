-- ===== src/Crypt/Ocb.antt =====
-- mumble/ocb.c, `crypt_ocb_encrypt` and `crypt_ocb_decrypt`. A message is the list of its bytes, so
-- `len` is its length; the loop and what follows it return what they store into `encrypted` (or
-- `plain`) and `tag`, and the `success` that is returned.
pub mod Steps
pub mod RoundTrip
pub mod Tag
use lua_mumble.Base.{
  ℕ, zero, suc, ◌+◌, ◌-◌, List, [], ◌∷◌, ◌++◌, Bool, true, false, not, ◌&&◌, ltb, leb, ◌==◌,
  if◌then◌else◌, length, take, drop, replicate, bit_or,
}
use mathlib.Core.List.{foldl}
use lua_mumble.Crypt.Aes.{Aes}
use lua_mumble.Crypt.Block.{block_size, xor_bytes, s2, s3, length_block, flip_bit}

pub record Sealed : Type 0 where
  pub cipher : List ℕ
  pub tag : List ℕ
  pub success : Bool

pub record Opened : Type 0 where
  pub plain : List ℕ
  pub tag : List ℕ
  pub success : Bool

-- `memcmp(a, b, n) == 0` on `n` bytes each.
unfoldable pub bytes_eq : List ℕ → List ℕ → Bool
bytes_eq [] [] = true
bytes_eq [] (y ∷ ys) = false
bytes_eq (x ∷ xs) [] = false
bytes_eq (x ∷ xs) (y ∷ ys) = (x == y) && bytes_eq xs ys

-- The block of this round is the second to last one, and is 0 except for its last byte.
unfoldable pub attack_block : List ℕ → Bool
attack_block plain =
    leb (length plain - block_size) block_size
    && (foldl bit_or 0 (take (block_size - 1) plain) == 0)

module _ (aes : Aes) (key : List ℕ) where
  -- From `S2(delta)` after the loop to the end.
  unfoldable pub encrypt_last : List ℕ → List ℕ → List ℕ → Bool → Sealed
  encrypt_last delta0 checksum plain success =
      let len = length plain in
      let delta = s2 delta0 in
      let pad = aes.encrypt key (xor_bytes (length_block len) delta) in
      let tmp = plain ++ drop len pad in
      record {
        cipher = take len (xor_bytes pad tmp);
        tag = aes.encrypt key (xor_bytes (s3 delta) (xor_bytes checksum tmp));
        success = success;
      }

  -- The loop with fuel, and what follows it.
  unfoldable pub encrypt_from : ℕ → Bool → List ℕ → List ℕ → List ℕ → Bool → Sealed
  encrypt_from zero modify delta checksum plain success = encrypt_last delta checksum plain success
  encrypt_from (suc fuel) modify delta checksum plain success =
      elim (ltb block_size (length plain)) [
        | true ↦
            let attack = attack_block plain in
            let flip = attack && modify in
            let success' = if attack then (if modify then success else false) else success in
            let block = take block_size plain in
            let delta' = s2 delta in
            let masked = xor_bytes delta' block in
            let tmp = aes.encrypt key (if flip then flip_bit masked else masked) in
            let summed = xor_bytes checksum block in
            let checksum' = if flip then flip_bit summed else summed in
            let rest = encrypt_from fuel modify delta' checksum' (drop block_size plain) success' in
            record rest { cipher = xor_bytes delta' tmp ++ rest.cipher }
        | false ↦ encrypt_last delta checksum plain success
      ]

  -- Each round takes 16 bytes, so `len` rounds are enough.
  unfoldable pub ocb_encrypt : List ℕ → List ℕ → Bool → Sealed
  ocb_encrypt plain nonce modify =
      encrypt_from (length plain) modify (aes.encrypt key nonce) (replicate block_size 0) plain true

  unfoldable pub decrypt_last : List ℕ → List ℕ → List ℕ → Opened
  decrypt_last delta0 checksum encrypted =
      let len = length encrypted in
      let delta = s2 delta0 in
      let pad = aes.encrypt key (xor_bytes (length_block len) delta) in
      let tmp = xor_bytes (encrypted ++ replicate (block_size - len) 0) pad in
      record {
        plain = take len tmp;
        tag = aes.encrypt key (xor_bytes (s3 delta) (xor_bytes checksum tmp));
        success = not (bytes_eq (take (block_size - 1) tmp) (take (block_size - 1) delta));
      }

  unfoldable pub decrypt_from : ℕ → List ℕ → List ℕ → List ℕ → Opened
  decrypt_from zero delta checksum encrypted = decrypt_last delta checksum encrypted
  decrypt_from (suc fuel) delta checksum encrypted = elim (ltb block_size (length encrypted)) [
    | true ↦
        let delta' = s2 delta in
        let tmp = aes.decrypt key (xor_bytes delta' (take block_size encrypted)) in
        let block = xor_bytes delta' tmp in
        let rest =
          decrypt_from fuel delta' (xor_bytes checksum block) (drop block_size encrypted) in
        record rest { plain = block ++ rest.plain }
    | false ↦ decrypt_last delta checksum encrypted
  ]

  unfoldable pub ocb_decrypt : List ℕ → List ℕ → Opened
  ocb_decrypt encrypted nonce =
      decrypt_from (length encrypted) (aes.encrypt key nonce) (replicate block_size 0) encrypted
