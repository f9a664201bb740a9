-- ===== src/Tests/Ciphers.antt =====
-- A block cipher that adds 1 to each byte, two peers with one key, and packets between them.
use lua_mumble.Base.{
  ℕ, ◌+◌, ◌<◌, List, [], ◌∷◌, map, Option, some, none, true, length, replicate, All, IsByte, u8,
  get_or, ◌≡◌, refl, inr, arith, ap, ap₂, suc, ◌∙◌,
}
use lua_mumble.Crypt.Aes.{Aes, IsCipher}
use lua_mumble.Crypt.Block.{
  s2, be, xor_bytes, s3, length_block, to_be, doubled_high, doubled_low, be_from, flip_bit,
}
use lua_mumble.Crypt.Block.Laws.{IsBlock}
use lua_mumble.Crypt.Block.Doubling.{be-s2, times_x}
use lua_mumble.Crypt.Ocb.{
  ocb_encrypt, ocb_decrypt, decrypt_from, decrypt_last, encrypt_from, encrypt_last, bytes_eq,
  attack_block,
}
use lua_mumble.Crypt.Ocb.Steps.{hardened}
use lua_mumble.Crypt.Ocb.RoundTrip.{ocb_decrypt-ocb_encrypt}
use lua_mumble.Crypt.Iv.{increment}
use lua_mumble.Crypt.Iv.Laws.{advance}
use lua_mumble.Crypt.State.{CryptState, encrypt, decrypt}
use lua_mumble.Crypt.State.Late.{decrypt-encrypt_late}
use lua_mumble.Crypt.State.Delivery.{
  decrypt-encrypt_ahead, IsFresh, PassesCheck, next_iv, next_packet, encrypt_lem,
}
use lua_mumble.Crypt.State.Replay.{decrypt_replay}

abbrev plus_one : Aes
plus_one = record {
  encrypt = λ key b. map (λ (x : ℕ). u8 (x + 1)) b;
  decrypt = λ key b. map (λ (x : ℕ). u8 (x + 255)) b;
}

shifted :
    (n : ℕ) (b : List ℕ)
    → (length (map (λ (x : ℕ). u8 (x + n)) b) ≡ length b)
      × All IsByte (map (λ (x : ℕ). u8 (x + n)) b)
shifted n [] = (refl, tt)
shifted n (x ∷ b) = (ap suc (shifted n b).0, (omega arith, (shifted n b).1))

shifted_back :
    (b : List ℕ) → All IsByte b → map (λ (x : ℕ). u8 (x + 255)) (map (λ (x : ℕ). u8 (x + 1)) b) ≡ b
shifted_back [] h = refl
shifted_back (x ∷ b) h = ap₂ ◌∷◌ (omega (arith, h.0)) (shifted_back b h.1)

plus_one-IsCipher : IsCipher plus_one
plus_one-IsCipher = record {
  encrypt-IsBlock = λ key b h. record { full = (shifted 1 b).0 ∙ h.full; bytes = (shifted 1 b).1 };
  decrypt-encrypt = λ key b h. shifted_back b h.bytes;
}

abbrev message : List ℕ
message = 104 ∷ 101 ∷ 108 ∷ 108 ∷ 111 ∷ []

message-bytes : All IsByte message
message-bytes = (omega arith, (omega arith, (omega arith, (omega arith, (omega arith, tt)))))

ocb_decrypt-ocb_encrypt_example :
    let s = ocb_encrypt plus_one (replicate 16 7) message (replicate 16 9) true in
    let o = ocb_decrypt plus_one (replicate 16 7) s.cipher (replicate 16 9) in
    (o.plain ≡ hardened true message) × (o.tag ≡ s.tag) × (length s.cipher ≡ length message)
ocb_decrypt-ocb_encrypt_example =
    ocb_decrypt-ocb_encrypt plus_one plus_one-IsCipher (replicate 16 7) message (replicate 16 9)
      true message-bytes

abbrev zeros : List ℕ
zeros = replicate 16 0

ones-IsBlock : IsBlock (replicate 16 1)
ones-IsBlock = record { full = refl; bytes = go }
  where
    b : 1 < 256
    b = omega arith

    go : All IsByte (replicate 16 1)
    go = (b, (b, (b, (b, (b, (b, (b, (b, (b, (b, (b, (b, (b, (b, (b, (b, tt))))))))))))))))

be-s2_example : be (s2 (replicate 16 1)) ≡ times_x (be (replicate 16 1))
be-s2_example = be-s2 (replicate 16 1) ones-IsBlock

-- The receiver is where the sender was two packets before.
abbrev receiver : CryptState
receiver = record {
  raw_key = replicate 16 7;
  encrypt_iv = zeros;
  decrypt_iv = 0 ∷ 5 ∷ replicate 14 0;
  decrypt_history = replicate 256 0;
  ui_good = 0;
  ui_late = 0;
  ui_lost = 0;
  ui_resync = 0;
  b_init = true;
}

abbrev sender : CryptState
sender = record receiver { encrypt_iv = 2 ∷ 5 ∷ replicate 14 0 }

abbrev packet : List ℕ
packet = next_packet plus_one sender message

sent : (encrypt plus_one sender message).1 ≡ some packet
sent = ap (λ (r : CryptState × Option (List ℕ)). r.1) (encrypt_lem plus_one sender message)

passes : PassesCheck plus_one sender message
unfolding ocb_decrypt ocb_encrypt decrypt_from decrypt_last encrypt_from encrypt_last bytes_eq
    attack_block xor_bytes s2 s3 length_block to_be doubled_high doubled_low be_from flip_bit
    increment
passes = refl

-- What the theorems ask of the two.
two_steps : sender.encrypt_iv ≡ advance 2 receiver.decrypt_iv
unfolding increment
two_steps = refl

three_steps : 6 ∷ 5 ∷ replicate 14 0 ≡ advance 3 (next_iv sender)
unfolding increment
three_steps = refl

tail-bytes : All IsByte (5 ∷ replicate 14 0)
tail-bytes = (omega arith, (z, (z, (z, (z, (z, (z, (z, (z, (z, (z, (z, (z, (z, (z, tt)))))))))))))))
  where
    z : 0 < 256
    z = omega arith

receiver-bytes : All IsByte receiver.decrypt_iv
receiver-bytes = (omega arith, tail-bytes)

next-bytes : All IsByte (next_iv sender)
unfolding increment
next-bytes = (omega arith, tail-bytes)

fresh : IsFresh sender receiver
unfolding increment
fresh e = absurd (omega (arith, e))

IsFresh-later :
    IsFresh sender (record receiver { decrypt_iv = 6 ∷ 5 ∷ replicate 14 0; ui_lost = 3 })
unfolding increment
IsFresh-later e = absurd (omega (arith, e))

small : get_or packet 0 0 < 256
unfolding increment
small = omega arith

-- A receiver that is three packets ahead of the sender's next one.
abbrev later : CryptState
later = record receiver { decrypt_iv = 6 ∷ 5 ∷ replicate 14 0; ui_lost = 3 }

decrypt-encrypt_late_example :
    let (r', out) = decrypt plus_one later packet in
    (out ≡ some (hardened true message))
    × (r'.decrypt_iv ≡ later.decrypt_iv)
    × (r'.ui_good ≡ 1)
    × (r'.ui_late ≡ 1)
    × (r'.ui_lost ≡ 2)
    × ((decrypt plus_one r' packet).1 ≡ none)
decrypt-encrypt_late_example =
    decrypt-encrypt_late plus_one plus_one-IsCipher sender later message packet refl message-bytes
      passes sent 3 (omega arith) next-bytes three_steps (omega arith) (omega arith) IsFresh-later
      refl (omega arith) (omega arith)

received :
    decrypt plus_one receiver packet
    ≡ ((decrypt plus_one receiver packet).0, some (hardened true message))
received = ap (λ (out : Option (List ℕ)). ((decrypt plus_one receiver packet).0, out)) opened
  where
    opened : (decrypt plus_one receiver packet).1 ≡ some (hardened true message)
    opened =
        (decrypt-encrypt_ahead plus_one plus_one-IsCipher sender receiver message packet refl
          message-bytes passes sent 2 (omega arith) receiver-bytes two_steps (omega arith)
          (inr fresh) (omega arith) (omega arith) (omega arith)).0

decrypt_replay_example : (decrypt plus_one (decrypt plus_one receiver packet).0 packet).1 ≡ none
decrypt_replay_example =
    decrypt_replay plus_one receiver packet (hardened true message)
      (decrypt plus_one receiver packet).0 refl small received
