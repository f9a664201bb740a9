-- ===== src/Base/Bits.antt =====
-- The bit operations as arithmetic: the law for the lowest digit, `|` of disjoint fields, masks,
-- the laws of `^` at every width, and tables over a byte.
mod Step
mod Fields
mod Xor
mod Single
pub mod Table
pub use Fields.*
pub use Xor.*
pub use Single.*
pub use Table.*
