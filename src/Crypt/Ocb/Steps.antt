-- ===== src/Crypt/Ocb/Steps.antt =====
-- mumble/ocb.c: one round of each loop of `crypt_ocb_encrypt` and `crypt_ocb_decrypt`, and the message
-- as the receiver gets it.
use lua_mumble.Base.{
  length-drop, drop-drop, ◌+◌, le→ltb, take-append-drop, ◌≤◌, ◌*◌, ℕ, zero, suc, ◌<◌, List, ◌++◌,
  Bool, true, false, ◌&&◌, ltb, inl, inr, if◌then◌else◌, length, take, drop, length-append,
  length-take, All, All-take, take-append, drop-append, IsByte, ◌≡◌, refl, arith, tests, lt→ltb,
  Bool-cases,
}
use lua_mumble.Crypt.Aes.{Aes}
use lua_mumble.Crypt.Block.{block_size, xor_bytes, s2, flip_bit}
use lua_mumble.Crypt.Block.Laws.{IsBlock, xor-flip, flip-IsBlock}
use lua_mumble.Crypt.Ocb.{attack_block, encrypt_from, decrypt_from}

-- The first block as it goes into the cipher and the checksum.
unfoldable pub sent_block : Bool → List ℕ → List ℕ
sent_block modify plain =
    if attack_block plain && modify then flip_bit (take block_size plain) else take block_size plain

-- The message that the receiver gets: the second to last block has its lowest bit flipped where it
-- would help an attack.
unfoldable pub hardened_from : ℕ → Bool → List ℕ → List ℕ
unfolding sent_block
hardened_from zero modify plain = plain
hardened_from (suc fuel) modify plain = elim (ltb block_size (length plain)) [
  | true ↦ sent_block modify plain ++ hardened_from fuel modify (drop block_size plain)
  | false ↦ plain
]

unfoldable pub hardened : Bool → List ℕ → List ℕ
hardened modify plain = hardened_from (length plain) modify plain

pub sent-IsBlock : (m : Bool) (p : List ℕ) → 16 < length p → All IsByte p → IsBlock (sent_block m p)
unfolding sent_block
sent-IsBlock m p h b = elim (Bool-cases (attack_block p && m)) [
  | inl e ↦ rw e (flip-IsBlock (take 16 p) first)
  | inr e ↦ rw e first
]
  where
    first : IsBlock (take 16 p)
    first = record { full = omega (arith, length-take 16 p); bytes = All-take IsByte 16 p b }

module _ (aes : Aes) (key : List ℕ) where
  abbrev pub next_success : Bool → List ℕ → Bool → Bool
  next_success m p ok = if attack_block p then (if m then ok else false) else ok

  pub encrypt_step :
      (f : ℕ) (m : Bool) (delta ck p : List ℕ) (ok : Bool)
      → 16 < length p
      → encrypt_from aes key (suc f) m delta ck p ok ≡ (
          let rest =
            encrypt_from aes key f m
              (s2 delta)
              (xor_bytes ck (sent_block m p))
              (drop 16 p)
              (next_success m p ok) in
          record rest {
            cipher =
                xor_bytes (s2 delta) (aes.encrypt key (xor_bytes (s2 delta) (sent_block m p)))
                ++ rest.cipher;
          })
  unfolding encrypt_from sent_block
  encrypt_step f m delta ck p ok h =
      rw (lt→ltb 16 (length p) h, encrypt_from)
        (elim (Bool-cases (attack_block p && m)) [
          | inl e ↦ rw e (rw (xor-flip (s2 delta) (take 16 p), xor-flip ck (take 16 p)))
          | inr e ↦ rw e refl
        ])

  pub decrypt_step :
      (f : ℕ) (delta ck c r : List ℕ)
      → length c ≡ 16
      → 0 < length r
      → decrypt_from aes key (suc f) delta ck (c ++ r) ≡ (
          let block = xor_bytes (s2 delta) (aes.decrypt key (xor_bytes (s2 delta) c)) in
          let rest = decrypt_from aes key f (s2 delta) (xor_bytes ck block) r in
          record rest { plain = block ++ rest.plain })
  unfolding decrypt_from
  decrypt_step f delta ck c r h k =
      let long : ltb 16 (length (c ++ r)) ≡ true = omega (tests, length-append c r) in
      rw (long, decrypt_from) (rw (take-append 16 c r h, drop-append 16 c r h))

-- No block that is followed by another has the form that the hardening looks for.
abbrev pub IsQuiet : List ℕ → Type 0
IsQuiet p = (j : ℕ) → 16 * j + 16 < length p → attack_block (drop (16 * j) p) ≡ false

IsQuiet-drop : (p : List ℕ) → IsQuiet p → IsQuiet (drop 16 p)
IsQuiet-drop p quiet j h =
    let e : 16 * j + 16 ≡ 16 * suc j = omega arith in
    rw (drop-drop (16 * j) 16 p, e) (quiet (suc j) (omega (arith, length-drop 16 p)))

quiet_from : (f : ℕ) (p : List ℕ) → IsQuiet p → hardened_from f true p ≡ p
unfolding hardened_from sent_block
quiet_from zero p quiet = refl
quiet_from (suc f) p quiet = elim (Bool-cases (ltb 16 (length p))) [
  | inl more ↦
      rw (more, hardened_from)
        (rw (quiet 0 (omega tests), quiet_from f (drop 16 p) (IsQuiet-drop p quiet))
          (take-append-drop 16 p))
  | inr done ↦ rw (done, hardened_from)
]

-- A message without such a block arrives unchanged.
pub hardened_quiet : (p : List ℕ) → IsQuiet p → hardened true p ≡ p
unfolding hardened
hardened_quiet p quiet = quiet_from (length p) p quiet

-- A message of at most one block arrives unchanged.
pub hardened_short : (m : Bool) (p : List ℕ) → length p ≤ 16 → hardened m p ≡ p
unfolding hardened
hardened_short m p h = short_from (length p) h
  where
    short_from : (f : ℕ) → length p ≤ 16 → hardened_from f m p ≡ p
    short_from zero h = unfold hardened_from in refl
    short_from (suc f) h = unfold hardened_from in rw (le→ltb 16 (length p) h, hardened_from)
