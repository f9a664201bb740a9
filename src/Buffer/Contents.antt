-- ===== src/Buffer/Contents.antt =====
-- mumble/buffer.c: a valid buffer holds the bytes between its heads, and each operation does to
-- them what its name says.
use lua_mumble.Base.{
  true, ℕ, ◌+◌, ◌*◌, ◌^◌, ◌≤◌, ◌<◌, List, ◌++◌, some, length, take, drop, ◌≡◌, refl, sym, ap, ◌∙◌,
  ◌⊎◌, inl, inr, arith, ltb, tests, length-take, length-drop, take-take, drop-append_le, Bool-cases,
  u64,
}
use lua_mumble.Alloc.{Memory, IsMemory}
use lua_mumble.Buffer.{ByteBuffer, grown_capacity, buffer_length, resize, adjust, write}
use lua_mumble.Buffer.Storage.{stored, store-eq, length-stored, take-stored}

pub record IsValid (b : ByteBuffer) : Type 0 where
  pub allocated : length b.mem ≡ b.capacity
  pub ordered : b.read_head ≤ b.write_head
  pub within : b.write_head ≤ b.capacity
  pub small : b.capacity < 2 ^ 63

-- The bytes that are written and not yet read, oldest first.
abbrev pub contents : ByteBuffer → List ℕ
contents b = drop b.read_head (take b.write_head b.mem)

-- `buffer_length` is the number of these bytes.
pub length-contents : (b : ByteBuffer) → IsValid b → length (contents b) ≡ buffer_length b
unfolding buffer_length
length-contents b v = omega (
  arith,
  length-drop b.read_head (take b.write_head b.mem),
  length-take b.write_head b.mem,
  v.allocated,
)

-- The new capacity has room for the new head, and is at most twice that.
pub grown_capacity_bounds :
    (capacity new_head : ℕ)
    → capacity < new_head
    → new_head < 2 ^ 63
    → (new_head ≤ grown_capacity capacity new_head)
      × (grown_capacity capacity new_head ≤ 2 * new_head)
unfolding grown_capacity
grown_capacity_bounds capacity new_head h k = ground arith

-- There is room for `size` more bytes, or `realloc` gives it.
abbrev pub HasRoom : Memory → ByteBuffer → ℕ → Type 0
HasRoom m b size =
    (b.write_head + size ≤ b.capacity)
    ⊎ ((d : List ℕ) × (m.realloc b.mem (grown_capacity b.capacity (b.write_head + size)) ≡ some d))

-- The same bytes between the same heads, with room for `size` more.
pub record IsAdjusted (b : ByteBuffer) (size : ℕ) (b' : ByteBuffer) : Type 0 where
  pub valid : IsValid b'
  pub same_read : b'.read_head ≡ b.read_head
  pub same_write : b'.write_head ≡ b.write_head
  pub same_bytes : take b.write_head b'.mem ≡ take b.write_head b.mem
  pub room : b.write_head + size ≤ b'.capacity

module _ (m : Memory) (laws : IsMemory m) where
  resized-IsAdjusted :
      (b : ByteBuffer) (size n : ℕ) (d : List ℕ)
      → IsValid b
      → b.write_head + size ≤ n
      → m.realloc b.mem n ≡ some d
      → IsAdjusted b size (record b { mem = d; capacity = n })
  resized-IsAdjusted b size n d v h e = record {
    valid = record {
      allocated = laws.realloc_length b.mem n e;
      ordered = v.ordered;
      within = omega arith;
      small = laws.realloc_small b.mem n e;
    };
    same_read = refl;
    same_write = refl;
    same_bytes =
        sym (take-take b.write_head _ d (omega arith))
        ∙ ap (take b.write_head) (laws.realloc_keeps b.mem n e)
        ∙ take-take b.write_head _ b.mem (omega arith);
    room = h;
  }

  pub adjust-IsAdjusted :
      (b : ByteBuffer) (size : ℕ)
      → IsValid b
      → b.write_head + size < 2 ^ 63
      → HasRoom m b size
      → IsAdjusted b size (adjust m b size).0
  unfolding adjust resize
  adjust-IsAdjusted b size v h room =
      let new_head = b.write_head + size in
      let fits : u64 new_head ≡ new_head = omega arith in
      elim (Bool-cases (ltb b.capacity new_head)) [
        | inl more ↦
            let bounds = grown_capacity_bounds b.capacity new_head (omega (tests, more)) h in
            rw (fits, more) (grown new_head bounds.0 room more (omega arith))
        | inr enough ↦
            rw (fits, enough)
              (record {
                valid = v;
                same_read = refl;
                same_write = refl;
                same_bytes = refl;
                room = omega (tests, enough);
              })
      ]
    where
      grown :
          (new_head : ℕ)
          → new_head ≤ grown_capacity b.capacity new_head
          → (new_head ≤ b.capacity)
            ⊎ ((d : List ℕ) × (m.realloc b.mem (grown_capacity b.capacity new_head) ≡ some d))
          → ltb b.capacity new_head ≡ true
          → b.write_head + size ≤ new_head
          → IsAdjusted b size (resize m b (grown_capacity b.capacity new_head)).0
      grown new_head above (inl fits) more e = absurd (omega (tests, more))
      grown new_head above (inr (d, got)) more e =
          rw (got, resize)
            (resized-IsAdjusted b size (grown_capacity b.capacity new_head) d v (omega arith) got)

  -- `buffer_write` with room for the bytes appends them to the contents and returns their number.
  pub write_lem :
      (b : ByteBuffer) (bytes : List ℕ)
      → IsValid b
      → b.write_head + length bytes < 2 ^ 63
      → HasRoom m b (length bytes)
      → (b' : ByteBuffer) × (write m b bytes ≡ some (b', length bytes))
        × IsValid b'
        × (contents b' ≡ contents b ++ bytes)
        × (b'.write_head ≡ b.write_head + length bytes)
  unfolding write
  write_lem b bytes v h room =
      let a = (adjust m b (length bytes)).0 in
      let ok = adjust-IsAdjusted b (length bytes) v h room in
      let fits : a.write_head + length bytes ≤ length a.mem =
        omega (arith, ok.same_write, ok.room, ok.valid.allocated) in
      let small : u64 (a.write_head + length bytes) ≡ a.write_head + length bytes =
        omega (arith, ok.same_write) in
      (
        record a {
          mem = stored a.mem a.write_head bytes;
          write_head = a.write_head + length bytes;
        },
        rw (store-eq a.mem a.write_head bytes fits, small),
        record {
          allocated = length-stored a.mem a.write_head bytes fits ∙ ok.valid.allocated;
          ordered = omega (arith, ok.valid.ordered);
          within = omega (arith, ok.valid.allocated);
          small = ok.valid.small;
        },
        rw (take-stored a.mem a.write_head bytes fits, ok.same_read, ok.same_write, ok.same_bytes)
            (drop-append_le b.read_head (take b.write_head b.mem) bytes
              (omega (arith, length-take b.write_head b.mem, v.ordered, v.within, v.allocated))),
        omega (arith, ok.same_write),
      )
