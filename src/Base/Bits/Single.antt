-- ===== src/Base/Bits/Single.antt =====
-- One bit of a number, as `a & (1 << k)` reads it.
use Prim.Native.Nat.{ℕ, zero, suc, ◌+◌, ◌/◌, ◌^◌, ◌<◌, bit_and}
use mathlib.Core.Path.{◌≡◌, ap}
use native.Mathlib.Omega.{arith}
use native.Mathlib.Nat.{pow-suc}
use lua_mumble.Base.Bits.Step.{bit_and_step}
use lua_mumble.Base.Bits.Fields.{bit_and_mask}

half : (k : ℕ) → 2 ^ suc k / 2 ≡ 2 ^ k
half k = omega (arith, pow-suc 2 k)

pub bit_and_low : (k low : ℕ) → low < 2 ^ k → bit_and low (2 ^ k) ≡ 0
bit_and_low zero low h = ground (arith, bit_and_mask 1 low)
bit_and_low (suc k) low h = omega (
  arith,
  pow-suc 2 k,
  bit_and_step low (2 ^ suc k),
  ap (bit_and (low / 2)) (half k),
  bit_and_low k (low / 2) (omega (arith, pow-suc 2 k)),
)

half_sum : (k low : ℕ) → (2 ^ suc k + low) / 2 ≡ 2 ^ k + low / 2
half_sum k low = omega (arith, pow-suc 2 k)

pub bit_and_high : (k low : ℕ) → low < 2 ^ k → bit_and (2 ^ k + low) (2 ^ k) ≡ 2 ^ k
bit_and_high zero low h = ground (arith, bit_and_mask 1 (1 + low))
bit_and_high (suc k) low h = omega (
  arith,
  pow-suc 2 k,
  bit_and_step (2 ^ suc k + low) (2 ^ suc k),
  ap (bit_and ((2 ^ suc k + low) / 2)) (half k),
  ap (λ (t : ℕ). bit_and t (2 ^ k)) (half_sum k low),
  bit_and_high k (low / 2) (omega (arith, pow-suc 2 k)),
)
