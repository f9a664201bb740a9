-- ===== src/Base/Fault.antt =====
-- C code that may run into undefined behaviour, such as an access out of an allocation: `none`.
use Prim.Native.Nat.{ℕ, ◌+◌}
use mathlib.Core.Option.{Option, none, some}
use mathlib.Core.List.{List, ◌++◌}
use lua_mumble.Base.Tests.{leb, if◌then◌else◌}
use lua_mumble.Base.Lists.{length, take, drop}

infixl 5 ◌>>=◌
abbrev pub ◌>>=◌ {ℓ κ} : {A : Type ℓ} {B : Type κ} → Option A → (A → Option B) → Option B
none >>= k = none
some a >>= k = k a

-- `memcpy(mem + at, src, n)` for the `n` cells of `src`.
unfoldable pub store {ℓ} : {A : Type ℓ} → List A → ℕ → List A → Option (List A)
store mem at src =
    if leb (at + length src) (length mem)
    then some (take at mem ++ (src ++ drop (at + length src) mem))
    else none

-- `memcpy(dst, mem + at, n)`: what is read.
unfoldable pub load {ℓ} : {A : Type ℓ} → List A → ℕ → ℕ → Option (List A)
load mem at n = if leb (at + n) (length mem) then some (take n (drop at mem)) else none
