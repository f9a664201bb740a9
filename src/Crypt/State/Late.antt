-- ===== src/Crypt/State/Late.antt =====
-- mumble/ocb.c: a packet that comes late, and the same packet again.
use lua_mumble.Base.{
  ℕ, [], ◌∷◌, ◌+◌, ◌-◌, ◌^◌, ◌<◌, List, Option, none, some, true, ltb, length, get_or, All, IsByte,
  if◌then◌else◌, ◌≡◌, ap, arith,
}
use lua_mumble.Crypt.Aes.{Aes, IsCipher}
use lua_mumble.Crypt.Ocb.Steps.{hardened}
use lua_mumble.Crypt.Iv.Laws.{advance, first_byte, length-increment}
use lua_mumble.Crypt.State.{CryptState, encrypt, decrypt}
use lua_mumble.Crypt.State.Delivery.{
  next_iv, PassesCheck, IsFresh, packet-eq, decrypt-encrypt_behind,
}
use lua_mumble.Crypt.State.Replay.{decrypt_replay}

first_small : (iv : List ℕ) → 0 < length iv → All IsByte iv → first_byte iv < 256
first_small [] full bytes = absurd (omega (arith, full))
first_small (b ∷ rest) full bytes = bytes.0

-- Two peers with the same key; the receiver is `d` packets ahead of the one that comes, for `d` from 1 to 29,
-- and its history of 256 bytes does not hold it; the packet passes the check of its last block. Then
-- `crypt_decrypt` returns the message, keeps the receiver's IV, counts the packet as good and as late, and
-- takes one from the lost packets if these were more than one. When the packet comes again, it is refused.
pub decrypt-encrypt_late :
    (aes : Aes) (cipher : IsCipher aes) (s r : CryptState) (plain packet : List ℕ)
    (same_key : s.raw_key ≡ r.raw_key) (bytes : All IsByte plain) (passes : PassesCheck aes s plain)
    (sent : (encrypt aes s plain).1 ≡ some packet) (d : ℕ)
    → 0 < length s.encrypt_iv
    → All IsByte (next_iv s)
    → r.decrypt_iv ≡ advance d (next_iv s)
    → 0 < d
    → d < 30
    → IsFresh s r
    → length r.decrypt_history ≡ 256
    → r.ui_good + 1 < 2 ^ 64
    → r.ui_late + 1 < 2 ^ 64
    → let (r', out) = decrypt aes r packet in
      (out ≡ some (hardened true plain))
      × (r'.decrypt_iv ≡ r.decrypt_iv)
      × (r'.ui_good ≡ r.ui_good + 1)
      × (r'.ui_late ≡ r.ui_late + 1)
      × (r'.ui_lost ≡ (if ltb 1 r.ui_lost then r.ui_lost - 1 else r.ui_lost))
      × ((decrypt aes r' packet).1 ≡ none)
decrypt-encrypt_late aes cipher s r plain packet same_key bytes passes sent d full iv_bytes steps
      after near fresh history good late =
    let (opened, iv, counted, counted_late, lost) =
      decrypt-encrypt_behind aes cipher s r plain packet same_key bytes passes sent d full iv_bytes
        steps after near fresh good late in
    let first : get_or packet 0 0 < 256 =
      rw (packet-eq aes cipher s r plain packet same_key bytes passes sent)
        (first_small (next_iv s) (rw (length-increment s.encrypt_iv) full) iv_bytes) in
    (
      opened,
      iv,
      counted,
      counted_late,
      lost,
      decrypt_replay aes r packet (hardened true plain) (decrypt aes r packet).0 history first
          (ap (λ (out : Option (List ℕ)). ((decrypt aes r packet).0, out)) opened),
    )
