-- ===== src/Crypt/Aes.antt =====
-- The block cipher that mumble/ocb.c takes from OpenSSL (`EVP_aes_128_ecb`), as an interface: the
-- macros `AESencrypt` and `AESdecrypt` are calls of it on one block under the raw key.
use lua_mumble.Base.{ℕ, List, ◌≡◌}
use lua_mumble.Crypt.Block.Laws.{IsBlock}

pub record Aes : Type 0 where
  pub encrypt : List ℕ → List ℕ → List ℕ
  pub decrypt : List ℕ → List ℕ → List ℕ

-- AES under any key is a permutation of the blocks, and decryption is its inverse.
pub record IsCipher (aes : Aes) : Type 0 where
  pub encrypt-IsBlock : (key b : List ℕ) → IsBlock b → IsBlock (aes.encrypt key b)
  pub decrypt-encrypt : (key b : List ℕ) → IsBlock b → aes.decrypt key (aes.encrypt key b) ≡ b
