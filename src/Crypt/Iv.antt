-- ===== src/Crypt/Iv.antt =====
-- mumble/ocb.c, the 16-byte counters: how `crypt_encrypt` steps its IV, and how `crypt_decrypt`
-- finds the IV of a packet from the one byte of it that is sent.
pub mod Laws
pub mod Facts
use lua_mumble.Base.{
  ℕ, zero, suc, ◌+◌, ◌-◌, List, [], ◌∷◌, Option, none, some, Bool, true, false, ◌&&◌, ltb, ◌==◌,
  if◌then◌else◌, u8, bit_and, ℤ, pos, negsuc, sub_ℕ, ◌+ℤ◌, ◌-ℤ◌, ltb_ℤ,
}

-- `for (...) if (++iv[i]) break;`
unfoldable pub increment : List ℕ → List ℕ
increment [] = []
increment (b ∷ bs) =
    let b' = u8 (b + 1) in let rest = increment bs in if b' == 0 then b' ∷ rest else b' ∷ bs

-- `for (...) if (iv[i]--) break;`
pub decrement : List ℕ → List ℕ
decrement [] = []
decrement (b ∷ bs) =
    let b' = u8 (b + 255) in let rest = decrement bs in if b == 0 then b' ∷ rest else b' ∷ bs

-- What `crypt_decrypt` knows before it decrypts: the IV to decrypt with, and its locals.
pub record Window : Type 0 where
  pub iv : List ℕ
  pub lost : ℤ
  pub late : ℤ
  pub restore : Bool
  pub in_order : Bool

-- `diff`, brought into the range of a signed byte.
pub iv_distance : ℕ → ℕ → ℤ
iv_distance iv0 ivbyte =
    let diff = sub_ℕ ivbyte iv0 in
    if ltb_ℤ (pos 128) diff
    then diff -ℤ pos 256
    else if ltb_ℤ diff (negsuc 127)
    then diff +ℤ pos 256
    else diff

-- The branch for a packet that is not the next one.
pub out_of_order : ℕ → List ℕ → ℕ → Option Window
unfolding iv_distance
out_of_order iv0 rest ivbyte =
    let diff = iv_distance iv0 ivbyte in
    if ltb ivbyte iv0 && ltb_ℤ (negsuc 29) diff && ltb_ℤ diff (pos 0)
    then some (record {
      iv = ivbyte ∷ rest;
      lost = negsuc 0;
      late = pos 1;
      restore = true;
      in_order = false;
    })
    else if ltb iv0 ivbyte && ltb_ℤ (negsuc 29) diff && ltb_ℤ diff (pos 0)
    then some (record {
      iv = ivbyte ∷ decrement rest;
      lost = negsuc 0;
      late = pos 1;
      restore = true;
      in_order = false;
    })
    else if ltb iv0 ivbyte && ltb_ℤ (pos 0) diff
    then some (record {
      iv = ivbyte ∷ rest;
      lost = sub_ℕ ivbyte iv0 -ℤ pos 1;
      late = pos 0;
      restore = false;
      in_order = false;
    })
    else if ltb ivbyte iv0 && ltb_ℤ (pos 0) diff
    then some (record {
      iv = ivbyte ∷ increment rest;
      lost = sub_ℕ 256 iv0 +ℤ pos ivbyte -ℤ pos 1;
      late = pos 0;
      restore = false;
      in_order = false;
    })
    else none

-- `none` is a `return false`. An IV is never empty.
pub find_window : List ℕ → ℕ → Option Window
unfolding out_of_order
find_window [] ivbyte = none
find_window (iv0 ∷ rest) ivbyte =
    if bit_and (iv0 + 1) 0xff == ivbyte
    then (if ltb iv0 ivbyte
        then some (record {
          iv = ivbyte ∷ rest;
          lost = pos 0;
          late = pos 0;
          restore = false;
          in_order = true;
        })
        else if ltb ivbyte iv0
        then some (record {
          iv = ivbyte ∷ increment rest;
          lost = pos 0;
          late = pos 0;
          restore = false;
          in_order = true;
        })
        else none)
    else out_of_order iv0 rest ivbyte
