-- ===== src/Buffer.antt =====
-- mumble/buffer.c and the macros of mumble/buffer.h: a growing byte buffer with a read and a write
-- head. `malloc` and `realloc` are an argument. Every access to the storage is checked against its
-- size, and `none` stands for one that is out of range. The `context` of a buffer, which ties it to
-- the audio thread, is left out.
pub mod Storage
pub mod Contents
pub mod Reading
pub mod Failures
pub mod VarInt
pub mod Lua
use lua_mumble.Base.{
  ◌^◌, ℕ, ◌+◌, ◌-◌, ◌*◌, List, [], ◌∷◌, Option, none, some, Bool, true, false, ltb, ◌==◌,
  if◌then◌else◌, length, u8, u64, ◌>>◌, ◌>>=◌, store, load,
}
use lua_mumble.Alloc.{Memory}

-- `mem` is what `data` points to, with no cells where the pointer is NULL.
pub record ByteBuffer : Type 0 where
  pub original_capacity : ℕ
  pub capacity : ℕ
  pub read_head : ℕ
  pub write_head : ℕ
  pub mem : List ℕ

-- The capacity that `buffer_adjust` asks for.
pub grown_capacity : ℕ → ℕ → ℕ
grown_capacity capacity new_head =
    let grow_1_5x = u64 (capacity + (capacity >> 1)) in
    let grow_2x = u64 (capacity * 2) in
    let grow_headroom = u64 (new_head + (new_head >> 1)) in
    let new_capacity = if ltb grow_1_5x new_head then grow_2x else grow_1_5x in
    if ltb new_capacity new_head then grow_headroom else new_capacity

-- The state after `buffer_reset`, `buffer_flip` and `buffer_free`.
pub reset : ByteBuffer → ByteBuffer
reset b = record b { read_head = 0; write_head = 0 }

pub flip : ByteBuffer → ByteBuffer
flip b = record b { read_head = 0 }

pub free : ByteBuffer → ByteBuffer
free b = record b { original_capacity = 0; capacity = 0; read_head = 0; write_head = 0; mem = [] }

pub buffer_length : ByteBuffer → ℕ
buffer_length b = u64 (b.write_head + 2 ^ 64 - b.read_head)

pub is_empty : ByteBuffer → Bool
is_empty b = b.write_head == b.read_head

-- What is left to read is moved to the front, by `memmove` within the storage.
pub move_front : ByteBuffer → Option ByteBuffer
unfolding buffer_length
move_front b = do
  let remaining = buffer_length b
  moved ← load b.mem b.read_head remaining
  mem ← store b.mem 0 moved
  some (record b { read_head = 0; write_head = remaining; mem = mem })

pub pack : ByteBuffer → Option ByteBuffer
pack b =
    if b.read_head == b.write_head
    then some (reset b)
    else if ltb 0 b.read_head
    then move_front b
    else some b

-- What the macro `buffer_available` lets pass.
abbrev pub available : ByteBuffer → ℕ → Bool
available b size = if ltb b.write_head (u64 (b.read_head + size)) then false else true

-- The returned size and the bytes that go to `output`.
pub read : ByteBuffer → ℕ → Option (ByteBuffer × ℕ × List ℕ)
read b size =
    if available b size
    then (do
      out ← load b.mem b.read_head size
      some (record b { read_head = u64 (b.read_head + size) }, size, out))
    else some (b, 0, [])

module _ (m : Memory) where
  -- The returned pointer is NULL where the flag is false.
  pub init : ℕ → ByteBuffer × Bool
  init size = elim (m.malloc size) [
    | some cells ↦ (
      record {
        original_capacity = size;
        capacity = size;
        read_head = 0;
        write_head = 0;
        mem = cells;
      },
      true,
    )
    | none ↦ (
      record { original_capacity = size; capacity = size; read_head = 0; write_head = 0; mem = [] },
      false,
    )
  ]

  pub resize : ByteBuffer → ℕ → ByteBuffer × ℕ
  resize b new_capacity = elim (m.realloc b.mem new_capacity) [
    | some cells ↦ (record b { mem = cells; capacity = new_capacity }, 1)
    | none ↦ (b, 0)
  ]

  pub shrink : ByteBuffer → ByteBuffer × ℕ
  shrink b = if ltb b.original_capacity b.capacity then resize b b.original_capacity else (b, 0)

  pub adjust : ByteBuffer → ℕ → ByteBuffer × ℕ
  adjust b size =
      let new_head = u64 (b.write_head + size) in
      if ltb b.capacity new_head then resize b (grown_capacity b.capacity new_head) else (b, 0)

  -- The result of `buffer_adjust` is not looked at.
  pub write : ByteBuffer → List ℕ → Option (ByteBuffer × ℕ)
  write b bytes =
      let b' = (adjust b (length bytes)).0 in
      do
        mem ← store b'.mem b'.write_head bytes
        some
            (record b' { mem = mem; write_head = u64 (b'.write_head + length bytes) }, length bytes)

  pub write_byte : ByteBuffer → ℕ → Option (ByteBuffer × ℕ)
  write_byte b value =
      let b' = (adjust b 1).0 in
      do
        mem ← store b'.mem b'.write_head (u8 value ∷ [])
        some (record b' { mem = mem; write_head = u64 (b'.write_head + 1) }, 1)

  -- `none` outside, a fault; the flag is false where NULL is returned.
  pub init_data : List ℕ → Option (ByteBuffer × Bool)
  init_data bytes =
      let (b, allocated) = init (length bytes) in
      if allocated then (do (b', n) ← write b bytes; some (flip b', true)) else some (b, false)
