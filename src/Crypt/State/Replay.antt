-- ===== src/Crypt/State/Replay.antt =====
-- mumble/ocb.c: a packet is accepted once.
use lua_mumble.Base.{
  ℕ, ◌<◌, List, none, some, true, false, ltb, inl, inr, length, get_or, drop, ap, ◌≡◌, arith,
  Bool-cases, Option-cases, get_or-set_self,
}
use lua_mumble.Crypt.Aes.{Aes}
use lua_mumble.Crypt.Iv.{Window, find_window}
use lua_mumble.Crypt.Iv.Facts.{window_first, window_restore, find_window_again}
use lua_mumble.Crypt.State.{CryptState, decrypt, decrypt_window, seen}
use lua_mumble.Crypt.State.Delivery.{accepted}

module _ (aes : Aes) where
  -- What it takes for `crypt_decrypt` to return true.
  record Accepts (c : CryptState) (source plain : List ℕ) (c' : CryptState) : Type 0 where
    window : Window
    long : ltb (length source) 4 ≡ false
    found : find_window c.decrypt_iv (get_or source 0 0) ≡ some window
    after : c' ≡ accepted c window

  decrypt_window-eq :
      (c : CryptState) (source : List ℕ) (w : Window) (plain : List ℕ) {c' : CryptState}
      → decrypt_window aes c source w ≡ (c', some plain)
      → c' ≡ accepted c w
  unfolding decrypt_window
  decrypt_window-eq c source w plain h = ground arith

  decrypt-Accepts :
      (c : CryptState) (source : List ℕ) (plain : List ℕ) {c' : CryptState}
      → decrypt aes c source ≡ (c', some plain)
      → Accepts c source plain c'
  unfolding decrypt
  decrypt-Accepts c source plain h = elim (Bool-cases (ltb (length source) 4)) [
    | inl short ↦ absurd (ground arith)
    | inr long ↦ elim (Option-cases (find_window c.decrypt_iv (get_or source 0 0))) [
      | inl lost ↦ absurd (ground arith)
      | inr (w, found) ↦ elim (Bool-cases (seen c w)) [
        | inl old ↦ absurd (ground arith)
        | inr new ↦ record {
          window = w;
          long = long;
          found = found;
          after = decrypt_window-eq c source w plain (ground arith);
        }
      ]
    ]
  ]

  unseen_again :
      (c' : CryptState) (source : List ℕ) (w : Window)
      → find_window c'.decrypt_iv (get_or source 0 0) ≡ some w
      → seen c' w ≡ true
      → (decrypt aes c' source).1 ≡ none
  unfolding decrypt
  unseen_again c' source w found old = elim (Bool-cases (ltb (length source) 4)) [
    | inl short ↦ rw short
    | inr long ↦ rw (long, found) (rw old)
  ]

  none_again :
      (c' : CryptState) (source : List ℕ)
      → find_window c'.decrypt_iv (get_or source 0 0) ≡ none
      → (decrypt aes c' source).1 ≡ none
  unfolding decrypt
  none_again c' source lost = elim (Bool-cases (ltb (length source) 4)) [
    | inl short ↦ rw short
    | inr long ↦ rw (long, lost)
  ]

  seen_late :
      (c : CryptState) (w : Window)
      → length c.decrypt_history ≡ 256
      → get_or w.iv 0 0 < 256
      → w.in_order ≡ false
      → seen (accepted c w) w ≡ true
  unfolding seen
  seen_late c w full small late =
      rw
        (
          late,
          get_or-set_self c.decrypt_history (get_or w.iv 0 0) (get_or w.iv 1 0) 0 (omega arith),
        )
        (ground arith)

  -- A packet is accepted once: after `crypt_decrypt` has returned true, it returns false on the same
  -- bytes, whether the packet came in order, after lost ones or late.
  pub decrypt_replay :
      (c : CryptState) (source : List ℕ) (plain : List ℕ) (c' : CryptState)
      → length c.decrypt_history ≡ 256
      → get_or source 0 0 < 256
      → decrypt aes c source ≡ (c', some plain)
      → (decrypt aes c' source).1 ≡ none
  decrypt_replay c source plain c' full small h =
      let a = decrypt-Accepts c source plain h in
      let w = a.window in
      let x = get_or source 0 0 in
      let first = window_first c.decrypt_iv x a.found in
      let head : get_or w.iv 0 0 ≡ x = ap (λ t. get_or t 0 0) first in
      rw a.after (elim (Bool-cases w.restore) [
        | inl back ↦
            unseen_again (accepted c w) source w (rw back a.found)
              (seen_late c w full (rw head small) (window_restore c.decrypt_iv x a.found back))
        | inr kept ↦
            none_again (accepted c w) source
              (rw kept (rw first (find_window_again x (drop 1 w.iv) small)))
      ])
