-- ===== src/Alloc.antt =====
-- The allocator that mumble/buffer.c calls.
use Prim.Native.Nat.{min}
use lua_mumble.Base.{ℕ, ◌^◌, ◌<◌, List, Option, some, length, take, ◌≡◌}

pub record Memory : Type 0 where
  pub malloc : ℕ → Option (List ℕ)
  pub realloc : List ℕ → ℕ → Option (List ℕ)

-- An allocation has the size that was asked for, which is below 2 ^ 63, and `realloc` keeps the
-- cells that are in both the old and the new one.
pub record IsMemory (m : Memory) : Type 0 where
  pub malloc_length : (n : ℕ) {d : List ℕ} → m.malloc n ≡ some d → length d ≡ n
  pub malloc_small : (n : ℕ) {d : List ℕ} → m.malloc n ≡ some d → n < 2 ^ 63
  pub realloc_length : (d : List ℕ) (n : ℕ) {d' : List ℕ} → m.realloc d n ≡ some d' → length d' ≡ n
  pub realloc_small : (d : List ℕ) (n : ℕ) {d' : List ℕ} → m.realloc d n ≡ some d' → n < 2 ^ 63
  pub realloc_keeps :
      (d : List ℕ) (n : ℕ) {d' : List ℕ}
      → m.realloc d n ≡ some d'
      → take (min (length d) n) d' ≡ take (min (length d) n) d
