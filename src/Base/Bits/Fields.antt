-- ===== src/Base/Bits/Fields.antt =====
-- `|` of disjoint fields and `&` with a low mask, as arithmetic, at every width.
use mathlib.Core.Path.{◌≡◌, refl, ap}
use native.Mathlib.Nat.{pow-suc, one-le-pow}
use native.Mathlib.Omega.{arith}
use Prim.Native.Nat.{ℕ, zero, suc, ◌+◌, ◌-◌, ◌*◌, ◌/◌, ◌%◌, ◌^◌, ◌<◌, bit_and, bit_or}
use lua_mumble.Base.Bits.Step.{bit_or_step, bit_and_step}

bit_or-zero_below : (k a : ℕ) → a < k → bit_or a 0 ≡ a
bit_or-zero_below zero a h = absurd (omega arith)
bit_or-zero_below (suc k) zero h = refl
bit_or-zero_below (suc k) (suc a) h =
    omega (arith, bit_or_step (suc a) 0, bit_or-zero_below k (suc a / 2) (omega arith))

pub bit_or-zero : (a : ℕ) → bit_or a 0 ≡ a
bit_or-zero a = bit_or-zero_below (suc a) a (omega arith)

bit_and-zero_below : (k a : ℕ) → a < k → bit_and a 0 ≡ 0
bit_and-zero_below zero a h = absurd (omega arith)
bit_and-zero_below (suc k) zero h = refl
bit_and-zero_below (suc k) (suc a) h =
    omega (arith, bit_and_step (suc a) 0, bit_and-zero_below k (suc a / 2) (omega arith))

pub bit_and-zero : (a : ℕ) → bit_and a 0 ≡ 0
bit_and-zero a = bit_and-zero_below (suc a) a (omega arith)

shift_once : (high k : ℕ) → high * 2 ^ suc k ≡ 2 * (high * 2 ^ k)
shift_once high k = omega (arith, ap (λ (t : ℕ). high * t) (pow-suc 2 k))

-- `(high << k) | low` is a sum when `low` fits `k` bits.
pub bit_or_fields : (k high low : ℕ) → low < 2 ^ k → bit_or (high * 2 ^ k) low ≡ high * 2 ^ k + low
bit_or_fields zero high low room = ground (arith, bit_or-zero high)
bit_or_fields (suc k) high low room = ground (
  arith,
  bit_or_fields k high (low / 2) (omega (arith, pow-suc 2 k)),
  shift_once high k,
  bit_or_step (high * 2 ^ suc k) low,
)

low_field : (k high low : ℕ) → low < 2 ^ k → bit_and (high * 2 ^ k + low) (2 ^ k - 1) ≡ low
low_field zero high low room = ground (arith, bit_and-zero (high * 1 + low))
low_field (suc k) high low room = ground (
  arith,
  bit_and_step (high * 2 ^ suc k + low) (2 ^ suc k - 1),
  shift_once high k,
  pow-suc 2 k,
  one-le-pow k 2,
  low_field k high (low / 2) (omega (arith, pow-suc 2 k)),
)

-- A mask of `k` low bits is the remainder by `2 ^ k`.
pub bit_and_mask : (k a : ℕ) → bit_and a (2 ^ k - 1) ≡ a % 2 ^ k
bit_and_mask k a = ground (arith, one-le-pow k 2, low_field k (a / 2 ^ k) (a % 2 ^ k))
