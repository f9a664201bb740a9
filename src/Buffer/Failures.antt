-- ===== src/Buffer/Failures.antt =====
-- mumble/buffer.c: growth that fails, shrinking, and fresh buffers.
use lua_mumble.Base.{
  ℕ, ◌+◌, ◌^◌, ◌≤◌, ◌<◌, List, [], ◌∷◌, some, none, length, take, drop, ◌≡◌, refl, sym, ap, ◌∙◌,
  arith, ltb, tests, true, take-take, u8, u64, Bool-cases, inl, inr, Option-cases,
}
use lua_mumble.Alloc.{Memory, IsMemory}
use lua_mumble.Buffer.{
  ByteBuffer, grown_capacity, free, resize, shrink, adjust, write, write_byte, init,
}
use lua_mumble.Buffer.Storage.{store_out}
use lua_mumble.Buffer.Contents.{IsValid, contents}

-- `buffer_writeByte` is `buffer_write` of one byte.
pub write_byte-eq-write :
    (m : Memory) (b : ByteBuffer) (x : ℕ) → write_byte m b x ≡ write m b (u8 x ∷ [])
unfolding write_byte write
write_byte-eq-write m b x = refl

resize-none :
    (m : Memory) (b : ByteBuffer) (n : ℕ) → m.realloc b.mem n ≡ none → resize m b n ≡ (b, 0)
unfolding resize
resize-none m b n e = rw (e, resize)

resize-some :
    (m : Memory) (b : ByteBuffer) (n : ℕ) {d : List ℕ}
    → m.realloc b.mem n ≡ some d
    → resize m b n ≡ (record b { mem = d; capacity = n }, 1)
unfolding resize
resize-some m b n e = rw (e, resize)

-- `buffer_write` does not look at the result of `buffer_adjust`: when the bytes do not fit and
-- `realloc` fails, it stores past the end of the allocation.
pub write_overruns :
    (m : Memory) (b : ByteBuffer) (bytes : List ℕ)
    → IsValid b
    → b.write_head + length bytes < 2 ^ 63
    → b.capacity < b.write_head + length bytes
    → m.realloc b.mem (grown_capacity b.capacity (b.write_head + length bytes)) ≡ none
    → write m b bytes ≡ none
unfolding write adjust
write_overruns m b bytes v h full fails =
    let small : u64 (b.write_head + length bytes) ≡ b.write_head + length bytes = omega arith in
    let grows : ltb b.capacity (b.write_head + length bytes) ≡ true = omega tests in
    rw (
      small,
      grows,
      resize-none m b _ fails,
      store_out b.mem b.write_head bytes (omega (arith, v.allocated)),
    )

module _ (m : Memory) (laws : IsMemory m) where
  -- `buffer_shrink` keeps a valid buffer valid and its contents as they are, if what is written fits
  -- the original capacity, which is no larger than a valid capacity.
  pub shrink_lem :
      (b : ByteBuffer)
      → IsValid b
      → b.write_head ≤ b.original_capacity
      → IsValid (shrink m b).0 × (contents (shrink m b).0 ≡ contents b)
  unfolding shrink
  shrink_lem b v h = elim (Bool-cases (ltb b.original_capacity b.capacity)) [
    | inl grown ↦ elim (Option-cases (m.realloc b.mem b.original_capacity)) [
      | inl fails ↦ rw (grown, resize-none m b _ fails) (v, refl)
      | inr (d, got) ↦
          let kept : take b.write_head d ≡ take b.write_head b.mem =
            sym (take-take b.write_head _ d (omega (tests, v.within, v.allocated)))
            ∙ ap (take b.write_head) (laws.realloc_keeps b.mem b.original_capacity got)
            ∙ take-take b.write_head _ b.mem (omega (tests, v.within, v.allocated)) in
          rw (grown, resize-some m b _ got)
            (
              record {
                allocated = laws.realloc_length b.mem b.original_capacity got;
                ordered = v.ordered;
                within = h;
                small = laws.realloc_small b.mem b.original_capacity got;
              },
              ap (drop b.read_head) kept,
            )
    ]
    | inr same ↦ rw same (v, refl)
  ]

  -- Otherwise, when `realloc` gives the memory, it leaves the write head past the capacity.
  pub shrink_cuts :
      (b : ByteBuffer) (d : List ℕ)
      → IsValid b
      → b.original_capacity < b.write_head
      → m.realloc b.mem b.original_capacity ≡ some d
      → ¬ IsValid (shrink m b).0
  unfolding shrink
  shrink_cuts b d v h got =
      let grown : ltb b.original_capacity b.capacity ≡ true = omega (tests, v.within) in
      rw (grown, resize-some m b _ got) (λ w. omega (arith, w.within))

  -- A fresh buffer is valid and empty when `malloc` gives the memory.
  pub init-IsValid :
      (size : ℕ) (d : List ℕ)
      → m.malloc size ≡ some d
      → IsValid (init m size).0 × (contents (init m size).0 ≡ []) × ((init m size).1 ≡ true)
  unfolding init
  init-IsValid size d got =
      rw (got, init)
        (
          record {
            allocated = laws.malloc_length size got;
            ordered = omega arith;
            within = omega arith;
            small = laws.malloc_small size got;
          },
          refl,
          refl,
        )

-- After `buffer_free` the buffer is valid, empty and without storage.
pub free-IsValid :
    (b : ByteBuffer) → IsValid (free b) × (contents (free b) ≡ []) × ((free b).mem ≡ [])
unfolding free
free-IsValid b = (
  record { allocated = refl; ordered = omega arith; within = omega arith; small = omega arith },
  refl,
  refl,
)
