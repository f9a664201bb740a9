-- ===== src/Base/Bits/Step.antt =====
-- The native bit operations work on binary digits, lowest first, and count the digits that are left.
-- Without the count: what the lowest digit is, and what is left above it.
use Prim.Native.Nat.{ℕ, zero, suc, ◌+◌, ◌*◌, ◌/◌, ◌%◌, ◌≤◌, ◌<◌, min, max, bit_and, bit_or, bit_xor}
use Prim.Native.Nat.{digits, bitwise, differ, bit_and-bitwise, bit_or-bitwise, bit_xor-bitwise}
use mathlib.Core.Path.{◌≡◌, refl, ap, ◌∙◌}
use mathlib.Core.Logic.{inl, inr}
use native.Mathlib.Omega.{arith}
use lua_mumble.Base.Tests.{ltb, tests, Bool-cases}

-- `above` is the result where the first number has no digits left, `join` the one of two digits.
module _ (above : ℕ → ℕ) (join : ℕ → ℕ → ℕ) where
  -- A count that is enough may be one higher.
  one_more :
      (count x y : ℕ) → x ≤ count → digits above join (suc count) x y ≡ digits above join count x y
  one_more zero zero y enough = refl
  one_more zero (suc x) y enough = absurd (omega arith)
  one_more (suc count) zero y enough = refl
  one_more (suc count) (suc x) y enough =
      ap (λ (high : ℕ). high * 2 + join (suc x % 2) (y % 2))
        (one_more count (suc x / 2) (y / 2) (omega arith))

  -- So it may be cut down to any other that is enough.
  cut_down :
      (count less x y : ℕ)
      → x ≤ less
      → less ≤ count
      → digits above join count x y ≡ digits above join less x y
  cut_down zero less x y enough within =
      let same : zero ≡ less = omega arith in ap (λ (c : ℕ). digits above join c x y) same
  cut_down (suc count) less x y enough within = elim (Bool-cases (ltb count less)) [
    | inl last ↦
        let same : suc count ≡ less = omega (tests, last) in
        ap (λ (c : ℕ). digits above join c x y) same
    | inr below ↦
        one_more count x y (omega (tests, below))
        ∙ cut_down count less x y enough (omega (tests, below))
  ]

  lowest_digit :
      (x y : ℕ)
      → bitwise above join (suc x) y
        ≡ bitwise above join (suc x / 2) (y / 2) * 2 + join (suc x % 2) (y % 2)
  lowest_digit x y =
      ap (λ (high : ℕ). high * 2 + join (suc x % 2) (y % 2))
        (cut_down x (suc x / 2) (suc x / 2) (y / 2) (omega arith) (omega arith))

pub bit_and_step : (x y : ℕ) → bit_and x y ≡ bit_and (x / 2) (y / 2) * 2 + min (x % 2) (y % 2)
bit_and_step zero y = simp bit_and-bitwise (omega arith)
bit_and_step (suc x) y = simp bit_and-bitwise (lowest_digit (λ left. 0) min x y)

pub bit_or_step : (x y : ℕ) → bit_or x y ≡ bit_or (x / 2) (y / 2) * 2 + max (x % 2) (y % 2)
bit_or_step zero y = simp bit_or-bitwise (omega arith)
bit_or_step (suc x) y = simp bit_or-bitwise (lowest_digit (λ left. left) max x y)

-- Two digits differ when their sum is odd.
differ-eq-mod : (a b : ℕ) → differ (a % 2) (b % 2) ≡ (a + b) % 2
differ-eq-mod a b = on_digits (a % 2) (b % 2) (omega arith) (omega arith) ∙ omega arith
  where
    on_digits : (x y : ℕ) → x < 2 → y < 2 → differ x y ≡ (x + y) % 2
    on_digits zero zero p q = refl
    on_digits zero (suc zero) p q = refl
    on_digits zero (suc (suc y)) p q = absurd (omega arith)
    on_digits (suc zero) zero p q = refl
    on_digits (suc zero) (suc zero) p q = refl
    on_digits (suc zero) (suc (suc y)) p q = absurd (omega arith)
    on_digits (suc (suc x)) y p q = absurd (omega arith)

pub bit_xor_step : (x y : ℕ) → bit_xor x y ≡ bit_xor (x / 2) (y / 2) * 2 + (x + y) % 2
bit_xor_step zero y = simp bit_xor-bitwise (omega arith)
bit_xor_step (suc x) y =
    rw (← differ-eq-mod (suc x) y) (simp bit_xor-bitwise (lowest_digit (λ left. left) differ x y))
