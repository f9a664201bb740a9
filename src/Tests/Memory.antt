-- ===== src/Tests/Memory.antt =====
-- An allocator that gives everything below 2 ^ 63 bytes, and keeps what was there.
use lua_mumble.Base.{
  ℕ, ◌-◌, ◌^◌, ◌<◌, List, ◌++◌, some, none, length, take, replicate, if◌then◌else◌, ltb, ◌≡◌, ◌∙◌,
  arith, tests, length-append, length-take, length-replicate, take-append_le, take-take, true,
}
use Prim.Native.Nat.{min}
use lua_mumble.Alloc.{Memory, IsMemory}

unfoldable pub resized : List ℕ → ℕ → List ℕ
resized d n = take n d ++ replicate (n - length d) 0

abbrev pub memory : Memory
memory = record {
  malloc = λ n. if ltb n (2 ^ 63) then some (replicate n 0) else none;
  realloc = λ d n. if ltb n (2 ^ 63) then some (resized d n) else none;
}

length-resized : (d : List ℕ) (n : ℕ) → length (resized d n) ≡ n
unfolding resized
length-resized d n = omega (
  arith,
  length-append (take n d) (replicate (n - length d) 0),
  length-take n d,
  length-replicate {A = ℕ} (n - length d) 0,
)

resized-keeps :
    (d : List ℕ) (n : ℕ) → take (min (length d) n) (resized d n) ≡ take (min (length d) n) d
unfolding resized
resized-keeps d n =
    take-append_le (min (length d) n) (take n d) _ (omega (arith, length-take n d))
    ∙ take-take (min (length d) n) n d (omega arith)

pub memory-IsMemory : IsMemory memory
memory-IsMemory = record {
  malloc_length = λ n {d} h. ground (arith, length-replicate {A = ℕ} n 0);
  malloc_small = λ n {d} h. ground arith;
  realloc_length = λ d n {d'} h. ground (arith, length-resized d n);
  realloc_small = λ d n {d'} h. ground arith;
  realloc_keeps = λ d n {d'} h. ground (arith, resized-keeps d n);
}

pub memory_gives :
    (d : List ℕ) (n : ℕ) → n < 2 ^ 62 → (d' : List ℕ) × (memory.realloc d n ≡ some d')
memory_gives d n h = let e : ltb n (2 ^ 63) ≡ true = omega tests in (resized d n, rw e)

pub memory_allocates : (n : ℕ) → n < 2 ^ 63 → (d : List ℕ) × (memory.malloc n ≡ some d)
memory_allocates n h = let e : ltb n (2 ^ 63) ≡ true = omega tests in (replicate n 0, rw e)
