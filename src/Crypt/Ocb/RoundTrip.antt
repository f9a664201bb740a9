-- ===== src/Crypt/Ocb/RoundTrip.antt =====
-- mumble/ocb.c: `crypt_ocb_decrypt` undoes `crypt_ocb_encrypt`.
use lua_mumble.Base.{
  ℕ, zero, suc, ◌+◌, ◌-◌, ◌≤◌, ◌<◌, List, ◌++◌, Bool, true, false, ltb, inl, inr, length, drop,
  replicate, length-append, length-take, length-drop, All, All-drop, take-append, IsByte, ◌≡◌, refl,
  ap, arith, tests, ltb→lt, ltb→le, Bool-cases,
}
use lua_mumble.Crypt.Aes.{Aes, IsCipher}
use lua_mumble.Crypt.Block.{xor_bytes, s2, length_block}
use lua_mumble.Crypt.Block.Laws.{
  IsBlock, xor-IsBlock, xor_cancel, length-xor, s2-IsBlock, length_block-IsBlock, xor_last,
}
use lua_mumble.Crypt.Ocb.{
  encrypt_last, encrypt_from, ocb_encrypt, decrypt_last, decrypt_from, ocb_decrypt,
}
use lua_mumble.Crypt.Ocb.Steps.{
  sent_block, hardened_from, hardened, sent-IsBlock, next_success, encrypt_step, decrypt_step,
}

module _ (aes : Aes) (cipher : IsCipher aes) (key : List ℕ) where
  pad-IsBlock :
      (n : ℕ) (delta : List ℕ) → IsBlock (aes.encrypt key (xor_bytes (length_block n) (s2 delta)))
  pad-IsBlock n delta =
      cipher.encrypt-IsBlock key _ (xor-IsBlock _ _ (length_block-IsBlock n) (s2-IsBlock delta))

  length-encrypt_last :
      (delta ck p : List ℕ) (ok : Bool)
      → length p ≤ 16
      → length (encrypt_last aes key delta ck p ok).cipher ≡ length p
  unfolding encrypt_last
  length-encrypt_last delta ck p ok h =
      let pad = aes.encrypt key (xor_bytes (length_block (length p)) (s2 delta)) in
      let full : length pad ≡ 16 = (pad-IsBlock (length p) delta).full in
      let tmp = p ++ drop (length p) pad in
      let whole : length tmp ≡ 16 =
        omega (arith, length-append p (drop (length p) pad), length-drop (length p) pad, full) in
      omega (
        arith,
        length-take (length p) (xor_bytes pad tmp),
        length-xor pad tmp (omega (arith, full, whole)),
        full,
      )

  last_opened :
      (delta ck p : List ℕ) (ok : Bool)
      → length p ≤ 16
      → let s = encrypt_last aes key delta ck p ok in
        let o = decrypt_last aes key delta ck s.cipher in (o.plain ≡ p) × (o.tag ≡ s.tag)
  last_opened delta ck p ok h =
      let same = length-encrypt_last delta ck p ok h in
      let pad = aes.encrypt key (xor_bytes (length_block (length p)) (s2 delta)) in
      let full : length pad ≡ 16 = (pad-IsBlock (length p) delta).full in
      unfold decrypt_last in
      rw same (
        unfold encrypt_last in
        rw (xor_last p pad (16 - length p) (omega (arith, full)))
          (take-append (length p) p (drop (length p) pad) refl, refl))

  unmasked :
      (d x : List ℕ)
      → IsBlock d
      → IsBlock x
      → xor_bytes d (aes.decrypt key (xor_bytes d (xor_bytes d (aes.encrypt key (xor_bytes d x)))))
        ≡ x
  unmasked d x hd hx =
      let masked = xor-IsBlock d x hd hx in
      let sealed = cipher.encrypt-IsBlock key (xor_bytes d x) masked in
      rw
        (
          xor_cancel d (aes.encrypt key (xor_bytes d x)) (omega (arith, sealed.full, hd.full)),
          cipher.decrypt-encrypt key (xor_bytes d x) masked,
        )
        (xor_cancel d x (omega (arith, hd.full, hx.full)))

  sealed-IsBlock :
      (m : Bool) (delta p : List ℕ)
      → 16 < length p
      → All IsByte p
      → IsBlock (xor_bytes (s2 delta) (aes.encrypt key (xor_bytes (s2 delta) (sent_block m p))))
  sealed-IsBlock m delta p h b =
      xor-IsBlock _ _ (s2-IsBlock delta)
        (cipher.encrypt-IsBlock key _ (xor-IsBlock _ _ (s2-IsBlock delta) (sent-IsBlock m p h b)))

  length-encrypt_from :
      (f : ℕ) (m : Bool) (delta ck p : List ℕ) (ok : Bool)
      → length p ≤ f + 16
      → All IsByte p
      → length (encrypt_from aes key f m delta ck p ok).cipher ≡ length p
  unfolding encrypt_from
  length-encrypt_from zero m delta ck p ok h b = length-encrypt_last delta ck p ok (omega arith)
  length-encrypt_from (suc f) m delta ck p ok h b = elim (Bool-cases (ltb 16 (length p))) [
    | inl more ↦
        let long = ltb→lt 16 (length p) more in
        let block = sealed-IsBlock m delta p long b in
        let rest =
          length-encrypt_from f m (s2 delta) (xor_bytes ck (sent_block m p)) (drop 16 p)
            (next_success aes key m p ok) (omega (arith, length-drop 16 p))
            (All-drop IsByte 16 p b) in
        rw (encrypt_step aes key f m delta ck p ok long)
          (omega (arith, length-append {0}, rest, length-drop 16 p, block.full))
    | inr done ↦
        rw (done, encrypt_from) (length-encrypt_last delta ck p ok (ltb→le 16 (length p) done))
  ]

  opened_from :
      (f : ℕ) (m : Bool) (delta ck p : List ℕ) (ok : Bool)
      → length p ≤ f + 16
      → All IsByte p
      → let s = encrypt_from aes key f m delta ck p ok in
        let o = decrypt_from aes key f delta ck s.cipher in
        (o.plain ≡ hardened_from f m p) × (o.tag ≡ s.tag)
  unfolding encrypt_from decrypt_from hardened_from
  opened_from zero m delta ck p ok h b = last_opened delta ck p ok (omega arith)
  opened_from (suc f) m delta ck p ok h b = elim (Bool-cases (ltb 16 (length p))) [
    | inl more ↦
        let long = ltb→lt 16 (length p) more in
        let block = sealed-IsBlock m delta p long b in
        let sent = sent-IsBlock m p long b in
        let masked = xor-IsBlock (s2 delta) (sent_block m p) (s2-IsBlock delta) sent in
        let fits : length (drop 16 p) ≤ f + 16 = omega (arith, length-drop 16 p) in
        let bytes = All-drop IsByte 16 p b in
        let ck' = xor_bytes ck (sent_block m p) in
        let ok' = next_success aes key m p ok in
        let rest = encrypt_from aes key f m (s2 delta) ck' (drop 16 p) ok' in
        let same : 0 < length rest.cipher = omega (
          arith,
          length-encrypt_from f m (s2 delta) ck' (drop 16 p) ok' fits bytes,
          length-drop 16 p,
        ) in
        let ih = opened_from f m (s2 delta) ck' (drop 16 p) ok' fits bytes in
        rw (encrypt_step aes key f m delta ck p ok long) (
          rw (decrypt_step aes key f delta ck _ rest.cipher block.full same) (
            rw (unmasked (s2 delta) (sent_block m p) (s2-IsBlock delta) sent, more, hardened_from)
              (ap (◌++◌ (sent_block m p)) ih.0, ih.1)))
    | inr done ↦
        let short = ltb→le 16 (length p) done in
        let same : ltb 16 (length (encrypt_last aes key delta ck p ok).cipher) ≡ false =
          omega (tests, length-encrypt_last delta ck p ok short) in
        rw (done, encrypt_from, hardened_from)
          (rw (same, decrypt_from) (last_opened delta ck p ok short))
  ]

  length-sealed :
      (plain nonce : List ℕ) (m : Bool)
      → All IsByte plain
      → length (ocb_encrypt aes key plain nonce m).cipher ≡ length plain
  unfolding ocb_encrypt
  length-sealed plain nonce m b =
      length-encrypt_from (length plain) m (aes.encrypt key nonce) (replicate 16 0) plain true
        (omega arith) b

  -- With a block cipher whose decryption is the inverse of its encryption: what
  -- `crypt_ocb_encrypt` made of a message of bytes, `crypt_ocb_decrypt` under the same key and nonce
  -- opens to that message, except for the bit that the hardening flips, and with the same tag.
  pub ocb_decrypt-ocb_encrypt :
      (plain nonce : List ℕ) (m : Bool)
      → All IsByte plain
      → let s = ocb_encrypt aes key plain nonce m in
        let o = ocb_decrypt aes key s.cipher nonce in
        (o.plain ≡ hardened m plain) × (o.tag ≡ s.tag) × (length s.cipher ≡ length plain)
  unfolding ocb_decrypt
  ocb_decrypt-ocb_encrypt plain nonce m b =
      let same = length-sealed plain nonce m b in
      let pair =
        opened_from (length plain) m (aes.encrypt key nonce) (replicate 16 0) plain true
          (omega arith) b in
      rw same (unfold ocb_encrypt hardened in (pair.0, pair.1, refl))
