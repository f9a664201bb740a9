-- ===== src/Base.antt =====
-- What every module shares: names of the libraries, Boolean tests, lists indexed by native
-- numbers, C words, and the laws of the bit operations.
mod Tests
mod Lists
mod Words
mod Int
mod Fault
mod Text
pub mod Bits
pub use Tests.*
pub use Text.*
pub use Lists.*
pub use Int.*
unfoldable pub use Fault.{◌>>=◌, store, load}
pub use Words.*
pub use Prim.Native.Nat.{
  ℕ, zero, suc, ◌+◌, ◌-◌, ◌*◌, ◌/◌, ◌%◌, ◌^◌, ◌≤◌, ◌<◌, bit_and, bit_or, bit_xor,
}
pub use mathlib.Core.Path.{◌≡◌, refl, sym, ap, ap₂, ◌∙◌}
pub use mathlib.Core.Logic.{◌≢◌, ◌↔◌, ◌⊎◌, inl, inr}
pub use Prim.Native.String.{String}
pub use mathlib.Core.Bool.{Bool, true, false, not, ◌&&◌, ◌||◌}
pub use mathlib.Core.Option.{Option, none, some}
pub use mathlib.Core.List.{List, [], ◌∷◌, ◌++◌, map}
pub use native.Mathlib.Omega.{arith}
