-- ===== src/Threads/Bytecode.antt =====
-- mumble/thread.c: a worker function as bytecode. `lua_dump` hands it over in pieces, which are an argument,
-- and stops at the first piece for which the callback does not return 0.
pub mod Pieces
use mathlib.Core.List.{append-nil, append_assoc}
use mathlib.Core.Path.{subst}
use Prim.Native.Nat.{min}
use lua_mumble.Base.{
  u64, take-all, drop-all, ℕ, zero, suc, ◌+◌, ◌-◌, ◌*◌, ◌/◌, ◌%◌, ◌^◌, ◌≤◌, ◌<◌, List, [], ◌∷◌,
  ◌++◌, map, Option, none, some, Bool, true, false, not, ◌&&◌, ◌||◌, ◌==◌, ltb, leb, if◌then◌else◌,
  ◌>>=◌, load, store, length, take, drop, ◌≡◌, ◌≢◌, ◌⊎◌, ◌↔◌, inl, inr, refl, sym, ap, ◌∙◌, arith,
  All, Bool-cases, Option-cases, ==_iff, length-append, take-append, String,
}
use lua_mumble.Alloc.{Memory, IsMemory}

-- The bytecode of a MumbleThreadController; `none` is NULL.
pub record Dump : Type 0 where
  pub bytecode : Option (List ℕ)
  pub bytecode_size : ℕ

pub no_dump : Dump
no_dump = record { bytecode = none; bytecode_size = 0 }

-- `realloc` of NULL is `malloc`.
unfoldable pub reallocate : Memory → Option (List ℕ) → ℕ → Option (List ℕ)
reallocate m none size = m.malloc size
reallocate m (some bytecode) size = m.realloc bytecode size

-- What is written to the allocation, and whether the callback failed.
unfoldable pub written : Option (List ℕ) → List ℕ → Dump → Option (Bool × Dump)
written none piece dump = some (true, dump)
written (some bytecode) piece dump = store bytecode dump.bytecode_size piece >>= λ filled. some (
  false,
  record { bytecode = some filled; bytecode_size = u64 (dump.bytecode_size + length piece) },
)

pub dump_controller : Memory → List ℕ → Dump → Option (Bool × Dump)
unfolding reallocate written
dump_controller m piece dump =
    written (reallocate m dump.bytecode (u64 (dump.bytecode_size + length piece))) piece dump

unfoldable pub dump_next : (Dump → Option (Bool × Dump)) → Bool × Dump → Option (Bool × Dump)
dump_next again (true, dump) = some (true, dump)
dump_next again (false, dump) = again dump

pub dump_pieces : Memory → List (List ℕ) → Dump → Option (Bool × Dump)
unfolding dump_controller dump_next
dump_pieces m [] dump = some (false, dump)
dump_pieces m (piece ∷ rest) dump = dump_controller m piece dump >>= dump_next (dump_pieces m rest)

-- What a thread is made of: a file, a Lua function in its pieces, or neither.
pub data Script : Type 0 where
  filename : Script
  function : List (List ℕ) → Script
  neither : Script

-- `true` is a Lua error.
pub script_dump : Memory → Script → Option (Bool × Dump)
unfolding dump_pieces
script_dump m filename = some (false, no_dump)
script_dump m (function pieces) = dump_pieces m pieces no_dump
script_dump m neither = some (true, no_dump)
