-- ===== src/Crypt/Iv/Laws.antt =====
-- mumble/ocb.c, the counters: the window finds the IV of every packet that comes at most 127 ahead
-- or at most 29 behind.
use lua_mumble.Base.{
  ℕ, zero, suc, ◌+◌, ◌-◌, ◌≤◌, ◌<◌, List, [], ◌∷◌, some, true, false, All, ltb, ltb→lt, ltb→le,
  tests, Bool-cases, inl, inr, IsByte, length, ◌≡◌, refl, ap, arith, pos, negsuc, ◌==◌, get_or,
}
use lua_mumble.Base.Bits.{bit_and_mask}
use lua_mumble.Crypt.Iv.{increment, decrement, Window, find_window}

-- The IV of a peer that has sent `d` packets more.
abbrev pub advance : ℕ → List ℕ → List ℕ
advance zero iv = iv
advance (suc d) iv = increment (advance d iv)

pub length-increment : (bs : List ℕ) → length (increment bs) ≡ length bs
unfolding increment
length-increment [] = refl
length-increment (b ∷ bs) = ground (arith, length-increment bs)

pub length-decrement : (bs : List ℕ) → length (decrement bs) ≡ length bs
unfolding decrement
length-decrement [] = refl
length-decrement (b ∷ bs) = ground (arith, length-decrement bs)

increment_low : (b : ℕ) (bs : List ℕ) → b + 1 < 256 → increment (b ∷ bs) ≡ (b + 1) ∷ bs
unfolding increment
increment_low b bs h = ground arith

increment_top : (b : ℕ) (bs : List ℕ) → b ≡ 255 → increment (b ∷ bs) ≡ 0 ∷ increment bs
unfolding increment
increment_top b bs h = ground arith

advance_low : (d b : ℕ) (bs : List ℕ) → b + d < 256 → advance d (b ∷ bs) ≡ (b + d) ∷ bs
advance_low zero b bs h = ap (λ t. t ∷ bs) (omega arith)
advance_low (suc d) b bs h =
    rw (advance_low d b bs (omega arith), increment_low (b + d) bs (omega arith))
      (ap (λ t. t ∷ bs) (omega arith))

advance_carry :
    (d b : ℕ) (bs : List ℕ)
    → b < 256
    → d < 256
    → 256 ≤ b + d
    → advance d (b ∷ bs) ≡ (b + d - 256) ∷ increment bs
advance_carry zero b bs h k l = absurd (omega arith)
advance_carry (suc d) b bs h k l = elim (Bool-cases (ltb (b + d) 256)) [
  | inl low ↦
      rw (advance_low d b bs (ltb→lt _ _ low), increment_top (b + d) bs (omega tests))
        (ap (λ t. t ∷ increment bs) (omega tests))
  | inr wrapped ↦
      rw
        (
          advance_carry d b bs h (omega arith) (ltb→le _ _ wrapped),
          increment_low (b + d - 256) (increment bs) (omega arith),
        )
        (ap (λ t. t ∷ increment bs) (omega tests))
]

decrement-increment : (bs : List ℕ) → All IsByte bs → decrement (increment bs) ≡ bs
unfolding increment decrement
decrement-increment [] h = refl
decrement-increment (b ∷ bs) h = ground (arith, decrement-increment bs h.1)

-- What the window must be for the packet of IV `sent` that is the next but `lost`.
abbrev pub ahead : List ℕ → ℕ → Window
ahead sent lost = record {
  iv = sent;
  lost = pos lost;
  late = pos 0;
  restore = false;
  in_order = lost == 0;
}

abbrev pub behind : List ℕ → Window
behind sent = record { iv = sent; lost = negsuc 0; late = pos 1; restore = true; in_order = false }

abbrev pub first_byte : List ℕ → ℕ
first_byte iv = get_or iv 0 0

ahead_low :
    (b : ℕ) (bs : List ℕ) (lost : ℕ)
    → b + lost + 1 < 256
    → lost < 127
    → find_window (b ∷ bs) (b + lost + 1) ≡ some (ahead ((b + lost + 1) ∷ bs) lost)
unfolding find_window
ahead_low b bs lost h k = ground (arith, bit_and_mask 8 (b + 1))

ahead_carry :
    (b : ℕ) (bs : List ℕ) (lost : ℕ)
    → b < 256
    → 256 ≤ b + lost + 1
    → lost < 127
    → find_window (b ∷ bs) (b + lost + 1 - 256)
      ≡ some (ahead ((b + lost + 1 - 256) ∷ increment bs) lost)
unfolding find_window
ahead_carry b bs lost h k l = ground (arith, bit_and_mask 8 (b + 1))

-- From any 16-byte state the receiver finds the IV of the packet that comes after `lost` missing
-- ones, for `lost` below 127, and counts them.
pub find_window-ahead :
    (b : ℕ) (bs : List ℕ) (lost : ℕ)
    → b < 256
    → lost < 127
    → find_window (b ∷ bs) (first_byte (advance (suc lost) (b ∷ bs)))
      ≡ some (ahead (advance (suc lost) (b ∷ bs)) lost)
find_window-ahead b bs lost h k = elim (Bool-cases (ltb (b + suc lost) 256)) [
  | inl low ↦ rw (advance_low (suc lost) b bs (ltb→lt _ _ low)) (
      let e : b + suc lost ≡ b + lost + 1 = omega arith in
      rw e (ahead_low b bs lost (omega tests) k))
  | inr wrapped ↦ rw (advance_carry (suc lost) b bs h (omega arith) (ltb→le _ _ wrapped)) (
      let e : b + suc lost ≡ b + lost + 1 = omega arith in
      rw e (ahead_carry b bs lost h (omega tests) k))
]

behind_low :
    (b : ℕ) (bs : List ℕ) (d : ℕ)
    → 0 < d
    → d < 30
    → b + d < 256
    → find_window ((b + d) ∷ bs) b ≡ some (behind (b ∷ bs))
unfolding find_window
behind_low b bs d p q h = ground (arith, bit_and_mask 8 (b + d + 1))

behind_carry :
    (b : ℕ) (bs : List ℕ) (d : ℕ)
    → 0 < d
    → d < 30
    → b < 256
    → 256 ≤ b + d
    → find_window ((b + d - 256) ∷ bs) b ≡ some (behind (b ∷ decrement bs))
unfolding find_window
behind_carry b bs d p q h k = ground (arith, bit_and_mask 8 (b + d - 256 + 1))

-- The receiver that is `d` packets ahead, for `d` from 1 to 29, finds the IV of the late packet.
pub find_window-behind :
    (b : ℕ) (bs : List ℕ) (d : ℕ)
    → b < 256
    → All IsByte bs
    → 0 < d
    → d < 30
    → find_window (advance d (b ∷ bs)) b ≡ some (behind (b ∷ bs))
find_window-behind b bs d h k p q = elim (Bool-cases (ltb (b + d) 256)) [
  | inl low ↦ rw (advance_low d b bs (ltb→lt _ _ low)) (behind_low b bs d p q (ltb→lt _ _ low))
  | inr wrapped ↦ rw (
    advance_carry d b bs h (omega arith) (ltb→le _ _ wrapped),
    behind_carry b (increment bs) d p q h (ltb→le _ _ wrapped),
    decrement-increment bs k,
  )
]
