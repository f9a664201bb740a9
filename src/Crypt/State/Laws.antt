-- ===== src/Crypt/State/Laws.antt =====
-- mumble/ocb.c: well-formed states, and what the setters and a failing decryption leave alone.
use lua_mumble.Base.{
  ℕ, List, none, length, ◌≡◌, arith, Bool-cases, inl, inr, ltb, Option-cases, get_or, length-set,
  ◌∙◌,
}
use lua_mumble.Crypt.Aes.{Aes}
use lua_mumble.Crypt.Iv.Laws.{length-increment}
use lua_mumble.Crypt.Iv.Facts.{length-window}
use lua_mumble.Crypt.Iv.{Window, find_window}
use lua_mumble.Crypt.State.{
  CryptState, init, set_key, set_raw_key, set_encrypt_iv, set_decrypt_iv, encrypt, decrypt,
  decrypt_window, seen,
}

-- The sizes of the arrays in `mumble_crypt`.
pub record IsSized (c : CryptState) : Type 0 where
  pub raw_key : length c.raw_key ≡ 16
  pub encrypt_iv : length c.encrypt_iv ≡ 16
  pub decrypt_iv : length c.decrypt_iv ≡ 16
  pub decrypt_history : length c.decrypt_history ≡ 256

init-IsSized : IsSized init
unfolding init
init-IsSized = ground arith

-- Whatever lengths the server sends, the setters keep the sizes of the arrays.
pub setters-IsSized :
    (rkey eiv div : List ℕ) (c : CryptState)
    → IsSized c
    → IsSized (set_key rkey eiv div c).0
      × IsSized (set_raw_key rkey c).0
      × IsSized (set_encrypt_iv eiv c).0
      × IsSized (set_decrypt_iv div c).0
unfolding set_key set_raw_key set_encrypt_iv set_decrypt_iv
setters-IsSized rkey eiv div c h = (ground arith, ground arith, ground arith, ground arith)

-- `crypt_decrypt` that returns false changes nothing: the IV, the history and the counters are as
-- before.
pub decrypt_failure :
    (aes : Aes) (c : CryptState) (source : List ℕ)
    → (decrypt aes c source).1 ≡ none
    → (decrypt aes c source).0 ≡ c
unfolding decrypt
decrypt_failure aes c source h = ground arith

window-IsSized :
    (aes : Aes) (c : CryptState) (source : List ℕ) (w : Window)
    → IsSized c
    → length w.iv ≡ 16
    → IsSized (decrypt_window aes c source w).0
unfolding decrypt_window
window-IsSized aes c source w h full =
    ground (arith, length-set c.decrypt_history (get_or w.iv 0 0) (get_or w.iv 1 0))

-- `crypt_encrypt` and `crypt_decrypt` keep the sizes of the arrays on every branch, whatever the
-- packet.
pub packets-IsSized :
    (aes : Aes) (c : CryptState) (plain source : List ℕ)
    → IsSized c
    → IsSized (encrypt aes c plain).0 × IsSized (decrypt aes c source).0
unfolding decrypt
packets-IsSized aes c plain source h =
    (unfold encrypt in ground (arith, length-increment c.encrypt_iv), received)
  where
    received : IsSized (decrypt aes c source).0
    received = elim (Bool-cases (ltb (length source) 4)) [
      | inl short ↦ rw short h
      | inr long ↦ elim (Option-cases (find_window c.decrypt_iv (get_or source 0 0))) [
        | inl lost ↦ rw (long, lost) h
        | inr (w, found) ↦
            let full = length-window c.decrypt_iv (get_or source 0 0) found ∙ h.decrypt_iv in
            elim (Bool-cases (seen c w)) [
              | inl old ↦ rw (long, found) (rw old h)
              | inr new ↦ rw (long, found) (rw new (window-IsSized aes c source w h full))
            ]
      ]
    ]
