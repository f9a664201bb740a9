-- ===== src/Base/Bits/Xor.antt =====
-- `^` on numbers of any width: commutative, associative, its own inverse, and closed on `k` bits.
use mathlib.Core.Path.{◌≡◌, ap}
use native.Mathlib.Nat.{pow-suc}
use native.Mathlib.Omega.{arith}
use Prim.Native.Nat.{ℕ, zero, suc, ◌+◌, ◌*◌, ◌/◌, ◌^◌, ◌<◌, bit_xor, bit_xor-bitwise}
use lua_mumble.Base.Bits.Step.{bit_xor_step}

comm_below : (k a b : ℕ) → a < k → b < k → bit_xor a b ≡ bit_xor b a
comm_below zero a b p q = absurd (omega arith)
comm_below (suc zero) a b p q = ground arith
comm_below (suc (suc k)) a b p q = omega (
  arith,
  bit_xor_step a b,
  bit_xor_step b a,
  comm_below (suc k) (a / 2) (b / 2) (omega arith) (omega arith),
)

pub bit_xor_comm : (a b : ℕ) → bit_xor a b ≡ bit_xor b a
bit_xor_comm a b = comm_below (suc (a + b)) a b (omega arith) (omega arith)

assoc_below :
    (k a b c : ℕ) → a < k → b < k → c < k → bit_xor (bit_xor a b) c ≡ bit_xor a (bit_xor b c)
assoc_below zero a b c p q r = absurd (omega arith)
assoc_below (suc zero) a b c p q r = ground arith
assoc_below (suc (suc k)) a b c p q r = ground (
  arith,
  bit_xor_step a b,
  bit_xor_step b c,
  bit_xor_step (bit_xor a b) c,
  bit_xor_step a (bit_xor b c),
  assoc_below (suc k) (a / 2) (b / 2) (c / 2) (omega arith) (omega arith) (omega arith),
)

pub bit_xor_assoc : (a b c : ℕ) → bit_xor (bit_xor a b) c ≡ bit_xor a (bit_xor b c)
bit_xor_assoc a b c = assoc_below (suc (a + b + c)) a b c (omega arith) (omega arith) (omega arith)

self_below : (k a : ℕ) → a < k → bit_xor a a ≡ 0
self_below zero a p = absurd (omega arith)
self_below (suc zero) a p = ground arith
self_below (suc (suc k)) a p =
    omega (arith, bit_xor_step a a, self_below (suc k) (a / 2) (omega arith))

pub bit_xor_self : (a : ℕ) → bit_xor a a ≡ 0
bit_xor_self a = self_below (suc a) a (omega arith)

pub zero-bit_xor : (b : ℕ) → bit_xor 0 b ≡ b
zero-bit_xor b = bit_xor-bitwise 0 b

-- What is put on with `^` comes off with `^`.
pub bit_xor_cancel : (a b : ℕ) → bit_xor a (bit_xor a b) ≡ b
bit_xor_cancel a b = rw (← bit_xor_assoc a a b, bit_xor_self a) (zero-bit_xor b)

pub bit_xor-lt : (k a b : ℕ) → a < 2 ^ k → b < 2 ^ k → bit_xor a b < 2 ^ k
bit_xor-lt zero a b p q = ground (arith, zero-bit_xor b)
bit_xor-lt (suc k) a b p q = omega (
  arith,
  pow-suc 2 k,
  bit_xor_step a b,
  bit_xor-lt k (a / 2) (b / 2) (omega (arith, pow-suc 2 k)) (omega (arith, pow-suc 2 k)),
)

-- `^` with a number of `k` bits changes the low `k` bits only.
pub bit_xor_low :
    (k q r s : ℕ) → r < 2 ^ k → s < 2 ^ k → bit_xor (q * 2 ^ k + r) s ≡ q * 2 ^ k + bit_xor r s
bit_xor_low zero q r s p h =
    ground (arith, bit_xor_comm (q * 1 + r) s, zero-bit_xor (q * 1 + r), zero-bit_xor r)
bit_xor_low (suc k) q r s p h = omega (
  arith,
  pow-suc 2 k,
  ap (λ (t : ℕ). q * t) (pow-suc 2 k),
  bit_xor_step (q * 2 ^ suc k + r) s,
  bit_xor_step r s,
  halves,
  bit_xor_low k q (r / 2) (s / 2) (omega (arith, pow-suc 2 k)) (omega (arith, pow-suc 2 k)),
)
  where
    double : q * 2 ^ suc k ≡ 2 * (q * 2 ^ k)
    double = omega (arith, ap (λ (t : ℕ). q * t) (pow-suc 2 k))

    halves : bit_xor ((q * 2 ^ suc k + r) / 2) (s / 2) ≡ bit_xor (q * 2 ^ k + r / 2) (s / 2)
    halves = ap (λ (t : ℕ). bit_xor t (s / 2)) (omega (arith, double))
