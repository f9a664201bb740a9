-- ===== src/Crypt/Ocb/Tag.antt =====
-- mumble/ocb.c, `crypt_ocb_encrypt`: the tag is a block, and with the hardening on it succeeds.
use lua_mumble.Base.{
  ℕ, zero, suc, ◌+◌, ◌≤◌, List, [], ◌∷◌, ◌++◌, Bool, true, false, ltb, inl, inr, if◌then◌else◌,
  length, drop, replicate, length-append, length-drop, All, All-append, All-drop, IsByte, ◌≡◌, refl,
  arith, ltb→lt, ltb→le, Bool-cases,
}
use lua_mumble.Crypt.Aes.{Aes, IsCipher}
use lua_mumble.Crypt.Block.{xor_bytes, s2, length_block}
use lua_mumble.Crypt.Block.Laws.{IsBlock, xor-IsBlock, s2-IsBlock, s3-IsBlock, length_block-IsBlock}
use lua_mumble.Crypt.Ocb.{attack_block, encrypt_last, encrypt_from, ocb_encrypt, bytes_eq}
use lua_mumble.Crypt.Ocb.Steps.{sent_block, sent-IsBlock, next_success, encrypt_step}

module _ (aes : Aes) (cipher : IsCipher aes) (key : List ℕ) where
  tag_last-IsBlock :
      (delta ck p : List ℕ) (ok : Bool)
      → length p ≤ 16
      → All IsByte p
      → IsBlock ck
      → IsBlock (encrypt_last aes key delta ck p ok).tag
  unfolding encrypt_last
  tag_last-IsBlock delta ck p ok h b k =
      let pad = aes.encrypt key (xor_bytes (length_block (length p)) (s2 delta)) in
      let block : IsBlock pad =
        cipher.encrypt-IsBlock key _
          (xor-IsBlock _ _ (length_block-IsBlock (length p)) (s2-IsBlock delta)) in
      let last : IsBlock (p ++ drop (length p) pad) = record {
        full =
            omega (
              arith,
              length-append p (drop (length p) pad),
              length-drop (length p) pad,
              block.full,
            );
        bytes =
            All-append IsByte p (drop (length p) pad) b
              (All-drop IsByte (length p) pad block.bytes);
      } in
      cipher.encrypt-IsBlock key _
        (xor-IsBlock _ _ (s3-IsBlock (s2 delta) (s2-IsBlock delta)) (xor-IsBlock _ _ k last))

  tag_from-IsBlock :
      (f : ℕ) (m : Bool) (delta ck p : List ℕ) (ok : Bool)
      → length p ≤ f + 16
      → All IsByte p
      → IsBlock ck
      → IsBlock (encrypt_from aes key f m delta ck p ok).tag
  unfolding encrypt_from
  tag_from-IsBlock zero m delta ck p ok h b k = tag_last-IsBlock delta ck p ok (omega arith) b k
  tag_from-IsBlock (suc f) m delta ck p ok h b k = elim (Bool-cases (ltb 16 (length p))) [
    | inl more ↦
        let long = ltb→lt 16 (length p) more in
        rw (encrypt_step aes key f m delta ck p ok long) (
          tag_from-IsBlock f m (s2 delta) (xor_bytes ck (sent_block m p)) (drop 16 p)
            (next_success aes key m p ok) (omega (arith, length-drop 16 p)) (All-drop IsByte 16 p b)
            (xor-IsBlock _ _ k (sent-IsBlock m p long b)))
    | inr done ↦
        rw (done, encrypt_from) (tag_last-IsBlock delta ck p ok (ltb→le 16 (length p) done) b k)
  ]

  pub tag-IsBlock :
      (plain nonce : List ℕ) (m : Bool)
      → All IsByte plain
      → IsBlock (ocb_encrypt aes key plain nonce m).tag
  unfolding ocb_encrypt
  tag-IsBlock plain nonce m b =
      tag_from-IsBlock (length plain) m (aes.encrypt key nonce) (replicate 16 0) plain true
        (omega arith) b (omega arith)

module _ (aes : Aes) (key : List ℕ) where
  success_from :
      (f : ℕ) (delta ck p : List ℕ) (ok : Bool)
      → (encrypt_from aes key f true delta ck p ok).success ≡ ok
  unfolding encrypt_from encrypt_last
  success_from zero delta ck p ok = refl
  success_from (suc f) delta ck p ok = elim (Bool-cases (ltb 16 (length p))) [
    | inl more ↦ rw (encrypt_step aes key f true delta ck p ok (ltb→lt 16 (length p) more)) (
        rw
          (success_from f (s2 delta) (xor_bytes ck (sent_block true p)) (drop 16 p)
            (next_success aes key true p ok))
          (kept (attack_block p) ok))
    | inr done ↦ rw (done, encrypt_from) refl
  ]
    where
      kept : (attack ok : Bool) → (if attack then (if true then ok else false) else ok) ≡ ok
      kept true ok = refl
      kept false ok = refl

  -- With `modifyPlainOnXEXStarAttack` set, `crypt_ocb_encrypt` returns true.
  pub success-ocb_encrypt :
      (plain nonce : List ℕ) → (ocb_encrypt aes key plain nonce true).success ≡ true
  unfolding ocb_encrypt
  success-ocb_encrypt plain nonce =
      success_from (length plain) (aes.encrypt key nonce) (replicate 16 0) plain true

pub bytes_eq_refl : (xs : List ℕ) → bytes_eq xs xs ≡ true
unfolding bytes_eq
bytes_eq_refl [] = refl
bytes_eq_refl (x ∷ xs) = ground (arith, bytes_eq_refl xs)
