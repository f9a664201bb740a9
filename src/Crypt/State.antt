-- ===== src/Crypt/State.antt =====
-- mumble/ocb.c, `mumble_crypt` and the functions on it. The four EVP contexts are scratch space of
-- the cipher and are left out. A function that returns `bool` returns `Option` or `Bool` beside the
-- new state.
pub mod Laws
pub mod Delivery
pub mod Replay
pub mod Late
use lua_mumble.Base.{
  ℕ, ◌+◌, ◌-◌, List, [], ◌∷◌, ◌++◌, Option, none, some, Bool, true, false, not, ◌&&◌, ◌||◌, ltb,
  ◌==◌, if◌then◌else◌, length, take, drop, replicate, get_or, set, u64, ℤ, pos, abs, ltb_ℤ,
}
use lua_mumble.Crypt.Aes.{Aes}
use lua_mumble.Crypt.Block.{block_size}
use lua_mumble.Crypt.Ocb.{Sealed, Opened, bytes_eq, ocb_encrypt, ocb_decrypt}
use lua_mumble.Crypt.Iv.{increment, Window, find_window}

abbrev pub key_size : ℕ
key_size = 16

pub record CryptState : Type 0 where
  pub raw_key : List ℕ
  pub encrypt_iv : List ℕ
  pub decrypt_iv : List ℕ
  pub decrypt_history : List ℕ
  pub ui_good : ℕ
  pub ui_late : ℕ
  pub ui_lost : ℕ
  pub ui_resync : ℕ
  pub b_init : Bool

pub init : CryptState
init = record {
  raw_key = replicate key_size 0;
  encrypt_iv = replicate block_size 0;
  decrypt_iv = replicate block_size 0;
  decrypt_history = replicate 256 0;
  ui_good = 0;
  ui_late = 0;
  ui_lost = 0;
  ui_resync = 0;
  b_init = false;
}

pub uninitialize : CryptState → CryptState
uninitialize c = record c { b_init = false }

unfoldable pub is_valid : CryptState → Bool
is_valid c = c.b_init

-- The three results of `RAND_bytes` are arguments.
pub gen_key : List ℕ → List ℕ → List ℕ → CryptState → CryptState
gen_key rkey eiv div c = record c {
  raw_key = rkey;
  encrypt_iv = eiv;
  decrypt_iv = div;
  b_init = true;
}

unfoldable pub set_key : List ℕ → List ℕ → List ℕ → CryptState → CryptState × Bool
set_key rkey eiv div c =
    if length rkey == key_size && length eiv == block_size && length div == block_size
    then (record c { raw_key = rkey; encrypt_iv = eiv; decrypt_iv = div; b_init = true }, true)
    else (c, false)

pub set_raw_key : List ℕ → CryptState → CryptState × Bool
set_raw_key rkey c =
    if length rkey == key_size then (record c { raw_key = rkey }, true) else (c, false)

pub set_encrypt_iv : List ℕ → CryptState → CryptState × Bool
set_encrypt_iv iv c =
    if length iv == block_size then (record c { encrypt_iv = iv }, true) else (c, false)

pub set_decrypt_iv : List ℕ → CryptState → CryptState × Bool
set_decrypt_iv iv c =
    if length iv == block_size then (record c { decrypt_iv = iv }, true) else (c, false)

-- `uiLate += late` and `uiLost += lost`, held above zero.
pub count_signed : ℕ → ℤ → ℕ
count_signed total by =
    if ltb_ℤ (pos 0) by
    then u64 (total + abs by)
    else if ltb (abs by) total
    then total - abs by
    else total

-- The history holds this packet, which is then a repeat.
pub seen : CryptState → Window → Bool
seen c w = not w.in_order && (get_or c.decrypt_history (get_or w.iv 0 0) 0 == get_or w.iv 1 0)

module _ (aes : Aes) where
  -- The packet is the first byte of the IV, three bytes of the tag, and the cipher text.
  pub encrypt : CryptState → List ℕ → CryptState × Option (List ℕ)
  encrypt c source =
      let c' = record c { encrypt_iv = increment c.encrypt_iv } in
      let sealed = ocb_encrypt aes c'.raw_key source c'.encrypt_iv true in
      if not sealed.success
      then (c', none)
      else (c', some (get_or c'.encrypt_iv 0 0 ∷ (take 3 sealed.tag ++ sealed.cipher)))

  -- From the decryption on, with the window found: `c` still has the saved IV.
  pub decrypt_window : CryptState → List ℕ → Window → CryptState × Option (List ℕ)
  decrypt_window c source w =
      let opened = ocb_decrypt aes c.raw_key (drop 4 source) w.iv in
      if not opened.success || not (bytes_eq (take 3 opened.tag) (take 3 (drop 1 source)))
      then (c, none)
      else (
        record c {
          decrypt_history = set c.decrypt_history (get_or w.iv 0 0) (get_or w.iv 1 0);
          decrypt_iv = if w.restore then c.decrypt_iv else w.iv;
          ui_good = u64 (c.ui_good + 1);
          ui_late = count_signed c.ui_late w.late;
          ui_lost = count_signed c.ui_lost w.lost;
        },
        some opened.plain,
      )

  pub decrypt : CryptState → List ℕ → CryptState × Option (List ℕ)
  unfolding decrypt_window seen
  decrypt c source =
      if ltb (length source) 4
      then (c, none)
      else elim (find_window c.decrypt_iv (get_or source 0 0)) [
        | none ↦ (c, none)
        | some w ↦ if seen c w then (c, none) else decrypt_window c source w
      ]
