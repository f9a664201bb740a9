-- ===== src/Buffer/Lua.antt =====
-- mumble/buffer.c: the methods of a buffer in Lua that do more than pass on one call. Lua hands over
-- arguments and takes the pushed values; `none` stands for an access out of the storage.
pub mod Strings
pub mod Reads
use lua_mumble.Base.{
  ℕ, ◌+◌, ◌-◌, ◌%◌, ◌^◌, ◌&&◌, List, [], ◌∷◌, ◌++◌, Option, none, some, ltb, leb, not, ◌==◌,
  if◌then◌else◌, length, u64, load, ◌>>=◌, get_or, Bool, true, false, ℤ, pos, negsuc,
}
use lua_mumble.Alloc.{Memory}
use lua_mumble.Buffer.{ByteBuffer, buffer_length, read, write, init, init_data}
use lua_mumble.Buffer.VarInt.{read_var_int, write_var_int}

-- A value that a method pushes.
pub data Value : Type 0 where
  nil : Value
  integer : ℕ → Value
  text : List ℕ → Value

-- What a call does: it returns values, or it raises a Lua error; the buffer may have changed in both.
pub data Answer : Type 0 where
  returned : ByteBuffer → List Value → Answer
  raised : ByteBuffer → Answer

-- An argument of `read`: a number of bytes, a string, or a value of another type.
pub data Format : Type 0 where
  bytes : ℕ → Format
  named : List ℕ → Format
  other : Format

-- The string begins with "*a".
is_all : List ℕ → Bool
is_all s = get_or s 0 0 == 42 && get_or s 1 0 == 97

-- The size that the argument asks for.
format_size : ByteBuffer → Format → Option ℕ
unfolding is_all
format_size b (bytes n) = some (u64 n)
format_size b (named s) = if is_all s then some (buffer_length b) else none
format_size b other = none

module _ (m : Memory) where
  -- One argument: an error where the format or the allocation fails, or nothing was read. The
  -- flag is false where an error is raised.
  read_one : ByteBuffer → ℕ → Option (ByteBuffer × Bool × List ℕ)
  read_one b size = elim (m.malloc size) [
    | none ↦ some (b, false, [])
    | some cells ↦ (do
      (b', n, out) ← read b size
      some (if n == 0 then (b', false, []) else (b', true, out)))
  ]

  -- `pushed` is what the arguments before have pushed.
  read_formats : ByteBuffer → List Format → List Value → Option Answer
  unfolding format_size read_one
  read_formats b [] pushed = some (returned b pushed)
  read_formats b (f ∷ fs) pushed = elim (format_size b f) [
    | none ↦ some (raised b)
    | some size ↦ read_one b size >>= λ (b', ok, out). elim ok [
      | true ↦ read_formats b' fs (pushed ++ (text out ∷ []))
      | false ↦ some (raised b')
    ]
  ]

  pub luabuffer_read : ByteBuffer → List Format → Option Answer
  unfolding read_formats
  luabuffer_read b formats = read_formats b formats []

  pub luabuffer_write_string : ByteBuffer → List ℕ → Option Answer
  luabuffer_write_string b string = do
    (b_1, n_1) ← write_var_int m b (length string)
    (b_2, n_2) ← write m b_1 string
    some (returned b_2 (integer n_2 ∷ []))

-- The string is read once its size is.
pub read_sized : ByteBuffer → ℕ → Option Answer
read_sized b size = do
  (b', k, out) ← read b size
  some (if k == 0 then raised b' else returned b' (text out ∷ []))

pub luabuffer_read_string : ByteBuffer → Option Answer
luabuffer_read_string b = do
  (b_1, size, n) ← read_var_int b
  if n == 0 then some (raised b_1) else read_sized b_1 size

-- The options of `seek`.
pub data SeekMode : Type 0 where
  seek_read : SeekMode
  seek_write : SeekMode
  seek_both : SeekMode

pub data SeekFrom : Type 0 where
  seek_set : SeekFrom
  seek_cur : SeekFrom
  seek_end : SeekFrom

-- A head and a signed offset, added as unsigned words.
add_offset : ℕ → ℤ → ℕ
add_offset head (pos n) = u64 (head + n)
add_offset head (negsuc n) = u64 (head + (2 ^ 64 - 1 - n % 2 ^ 64))

seek_position : ByteBuffer → SeekFrom → ℕ → ℤ → ℕ
unfolding add_offset
seek_position b seek_set head offset = add_offset 0 offset
seek_position b seek_cur head offset = add_offset head offset
seek_position b seek_end head offset = add_offset b.capacity offset

pub luabuffer_seek : ByteBuffer → SeekMode → SeekFrom → ℤ → Answer
unfolding seek_position
luabuffer_seek b seek_read from offset =
    let new_read = seek_position b from b.read_head offset in
    returned (record b { read_head = new_read }) (integer new_read ∷ [])
luabuffer_seek b seek_write from offset =
    let new_write = seek_position b from b.write_head offset in
    returned (record b { write_head = new_write }) (integer new_write ∷ [])
luabuffer_seek b seek_both from offset =
    let new_read = seek_position b from b.read_head offset in
    let new_write = seek_position b from b.write_head offset in
    returned (record b { read_head = new_read; write_head = new_write })
      (integer new_read ∷ integer new_write ∷ [])

-- A numeric index. It is compared with the read head and with the number of unread bytes.
pub luabuffer_index : ByteBuffer → ℕ → Option Value
luabuffer_index b index =
    if leb b.read_head index && ltb index (buffer_length b)
    then (do out ← load b.mem index 1; some (text out))
    else some nil
