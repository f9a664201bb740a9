-- ===== src/Crypt/State/Delivery.antt =====
-- mumble/ocb.c: what `crypt_encrypt` sends, `crypt_decrypt` of the peer receives, in order, after
-- lost packets, and late.
use lua_mumble.Base.{
  ℕ, suc, ◌+◌, ◌-◌, ◌^◌, ◌<◌, List, [], ◌∷◌, ◌++◌, some, true, false, ltb, length, take, get_or,
  set, length-take, take-append, drop-append, All, IsByte, u64, ◌≡◌, ◌≢◌, ◌⊎◌, refl, arith, tests,
  length-append, pos, if◌then◌else◌,
}
use lua_mumble.Crypt.Aes.{Aes, IsCipher}
use lua_mumble.Crypt.Ocb.{Sealed, ocb_encrypt, ocb_decrypt}
use lua_mumble.Crypt.Ocb.Steps.{hardened}
use lua_mumble.Crypt.Ocb.RoundTrip.{ocb_decrypt-ocb_encrypt}
use lua_mumble.Crypt.Ocb.Tag.{tag-IsBlock, success-ocb_encrypt, bytes_eq_refl}
use lua_mumble.Crypt.Iv.{increment, Window, find_window}
use lua_mumble.Crypt.Iv.Laws.{
  length-increment, advance, ahead, behind, first_byte, find_window-ahead, find_window-behind,
}
use lua_mumble.Crypt.State.{CryptState, encrypt, decrypt, decrypt_window, seen, count_signed}

abbrev pub next_iv : CryptState → List ℕ
next_iv s = increment s.encrypt_iv

-- What the OCB mode makes of the message in the next packet.
abbrev pub next_sealed : Aes → CryptState → List ℕ → Sealed
next_sealed aes s plain = ocb_encrypt aes s.raw_key plain (next_iv s) true

abbrev pub next_packet : Aes → CryptState → List ℕ → List ℕ
next_packet aes s plain =
    let sealed = next_sealed aes s plain in
    first_byte (next_iv s) ∷ (take 3 sealed.tag ++ sealed.cipher)

-- `crypt_encrypt` always succeeds: it steps the IV, and sends the first byte of the new one, three
-- bytes of the tag and the cipher text.
pub encrypt_lem :
    (aes : Aes) (s : CryptState) (plain : List ℕ)
    → encrypt aes s plain ≡ (record s { encrypt_iv = next_iv s }, some (next_packet aes s plain))
unfolding encrypt
encrypt_lem aes s plain = rw (success-ocb_encrypt aes s.raw_key plain (next_iv s))

-- The check of the last block in `crypt_ocb_decrypt`, which a random message fails with
-- probability 2 ^ -120, passes for the next packet.
abbrev pub PassesCheck : Aes → CryptState → List ℕ → Type 0
PassesCheck aes s plain =
    (ocb_decrypt aes s.raw_key (next_sealed aes s plain).cipher (next_iv s)).success ≡ true

-- The state after a packet is accepted through the window `w`.
abbrev pub accepted : CryptState → Window → CryptState
accepted r w = record r {
  decrypt_history = set r.decrypt_history (get_or w.iv 0 0) (get_or w.iv 1 0);
  decrypt_iv = if w.restore then r.decrypt_iv else w.iv;
  ui_good = u64 (r.ui_good + 1);
  ui_late = count_signed r.ui_late w.late;
  ui_lost = count_signed r.ui_lost w.lost;
}

module _ (aes : Aes) (cipher : IsCipher aes) (s r : CryptState) (plain : List ℕ)
    (same_key : s.raw_key ≡ r.raw_key) (bytes : All IsByte plain)
    (passes : PassesCheck aes s plain) where
  abbrev tag3 : List ℕ
  tag3 = take 3 (next_sealed aes s plain).tag

  length-tag3 : length tag3 ≡ 3
  length-tag3 =
      let block = tag-IsBlock aes cipher s.raw_key plain (next_iv s) true bytes in
      omega (arith, length-take 3 (next_sealed aes s plain).tag, block.full)

  window_opens :
      (w : Window)
      → w.iv ≡ next_iv s
      → decrypt_window aes r (next_packet aes s plain) w
        ≡ (accepted r w, some (hardened true plain))
  unfolding decrypt_window
  window_opens w e =
      let sealed = next_sealed aes s plain in
      let opens = ocb_decrypt-ocb_encrypt aes cipher s.raw_key plain (next_iv s) true bytes in
      rw
        (
          drop-append 3 tag3 sealed.cipher length-tag3,
          take-append 3 tag3 sealed.cipher length-tag3,
          ← same_key,
          e,
        )
        (rw (passes, opens.0, opens.1) (rw (bytes_eq_refl tag3)))

  window_delivers :
      (w : Window)
      → find_window r.decrypt_iv (first_byte (next_iv s)) ≡ some w
      → w.iv ≡ next_iv s
      → seen r w ≡ false
      → decrypt aes r (next_packet aes s plain) ≡ (accepted r w, some (hardened true plain))
  unfolding decrypt
  window_delivers w found e unseen =
      let sealed = next_sealed aes s plain in
      let long : ltb (length (next_packet aes s plain)) 4 ≡ false =
        omega (tests, length-append tag3 sealed.cipher, length-tag3) in
      rw (long, found) (rw unseen (window_opens w e))

-- The history does not hold the packet of the next IV of `s`.
abbrev pub IsFresh : CryptState → CryptState → Type 0
IsFresh s r = get_or r.decrypt_history (first_byte (next_iv s)) 0 ≢ get_or (next_iv s) 1 0

count_signed-pos : (total n : ℕ) → total + n < 2 ^ 64 → count_signed total (pos n) ≡ total + n
unfolding count_signed
count_signed-pos total n h = ground arith

find_ahead :
    (iv : List ℕ) (lost : ℕ)
    → 0 < length iv
    → All IsByte iv
    → lost < 127
    → find_window iv (first_byte (advance (suc lost) iv))
      ≡ some (ahead (advance (suc lost) iv) lost)
find_ahead [] lost h b k = absurd (omega arith)
find_ahead (b ∷ bs) lost h bytes k = find_window-ahead b bs lost bytes.0 k

find_behind :
    (iv : List ℕ) (d : ℕ)
    → 0 < length iv
    → All IsByte iv
    → 0 < d
    → d < 30
    → find_window (advance d iv) (first_byte iv) ≡ some (behind iv)
find_behind [] d h b p q = absurd (omega arith)
find_behind (b ∷ bs) d h bytes p q = find_window-behind b bs d bytes.0 bytes.1 p q

module _ (aes : Aes) (cipher : IsCipher aes) (s r : CryptState) (plain packet : List ℕ)
    (same_key : s.raw_key ≡ r.raw_key) (bytes : All IsByte plain) (passes : PassesCheck aes s plain)
    (sent : (encrypt aes s plain).1 ≡ some packet) where
  pub packet-eq : packet ≡ next_packet aes s plain
  packet-eq = cc (encrypt_lem aes s plain)

  pub decrypt-encrypt_ahead :
      (lost : ℕ)
      → 0 < length r.decrypt_iv
      → All IsByte r.decrypt_iv
      → s.encrypt_iv ≡ advance lost r.decrypt_iv
      → lost < 127
      → (lost ≡ 0) ⊎ IsFresh s r
      → r.ui_lost + lost < 2 ^ 64
      → r.ui_good + 1 < 2 ^ 64
      → r.ui_late < 2 ^ 64
      → let (r', out) = decrypt aes r packet in
        (out ≡ some (hardened true plain))
        × (r'.decrypt_iv ≡ (encrypt aes s plain).0.encrypt_iv)
        × (r'.ui_good ≡ r.ui_good + 1)
        × (r'.ui_lost ≡ r.ui_lost + lost)
        × (r'.ui_late ≡ r.ui_late)
  decrypt-encrypt_ahead lost full iv_bytes steps near fresh no_wrap good late =
      rw (packet-eq, delivered, encrypt_lem aes s plain)
        (
          refl,
          refl,
          omega arith,
          count_signed-pos r.ui_lost lost no_wrap,
          rw (count_signed-pos r.ui_late 0 (omega arith)) (omega arith),
        )
    where
      unseen : seen r (ahead (next_iv s) lost) ≡ false
      unseen = unfold seen in ground (arith, fresh)

      found : find_window r.decrypt_iv (first_byte (next_iv s)) ≡ some (ahead (next_iv s) lost)
      found = rw steps (find_ahead r.decrypt_iv lost full iv_bytes near)

      delivered :
          decrypt aes r (next_packet aes s plain)
          ≡ (accepted r (ahead (next_iv s) lost), some (hardened true plain))
      delivered =
          window_delivers aes cipher s r plain same_key bytes passes (ahead (next_iv s) lost) found
            refl unseen

  -- The receiver is `d` packets ahead of the one that comes, for `d` from 1 to 29, and the history
  -- does not hold it. Then `crypt_decrypt` returns the message, keeps the receiver's IV, counts the
  -- packet as good and as late, and takes one from the lost packets if these were more than one.
  pub decrypt-encrypt_behind :
      (d : ℕ)
      → 0 < length s.encrypt_iv
      → All IsByte (next_iv s)
      → r.decrypt_iv ≡ advance d (next_iv s)
      → 0 < d
      → d < 30
      → IsFresh s r
      → r.ui_good + 1 < 2 ^ 64
      → r.ui_late + 1 < 2 ^ 64
      → let (r', out) = decrypt aes r packet in
        (out ≡ some (hardened true plain))
        × (r'.decrypt_iv ≡ r.decrypt_iv)
        × (r'.ui_good ≡ r.ui_good + 1)
        × (r'.ui_late ≡ r.ui_late + 1)
        × (r'.ui_lost ≡ (if ltb 1 r.ui_lost then r.ui_lost - 1 else r.ui_lost))
  decrypt-encrypt_behind d full iv_bytes steps after near fresh good late =
      rw (packet-eq, delivered)
        (refl, refl, omega arith, count_signed-pos r.ui_late 1 late, unfold count_signed in refl)
    where
      unseen : seen r (behind (next_iv s)) ≡ false
      unseen = unfold seen in ground (arith, fresh)

      found : find_window r.decrypt_iv (first_byte (next_iv s)) ≡ some (behind (next_iv s))
      found =
          rw steps (
            find_behind (next_iv s) d (rw (length-increment s.encrypt_iv) full) iv_bytes after near)

      delivered :
          decrypt aes r (next_packet aes s plain)
          ≡ (accepted r (behind (next_iv s)), some (hardened true plain))
      delivered =
          window_delivers aes cipher s r plain same_key bytes passes (behind (next_iv s)) found refl
            unseen
