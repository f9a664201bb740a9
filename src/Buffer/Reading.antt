-- ===== src/Buffer/Reading.antt =====
-- mumble/buffer.c: reading, packing and clearing a valid buffer.
use lua_mumble.Base.{
  ℕ, ◌+◌, ◌-◌, ◌^◌, ◌≤◌, ◌<◌, List, [], some, length, take, drop, ◌≡◌, refl, sym, ap, ◌∙◌, arith,
  ltb, tests, true, false, length-take, length-drop, take-take, take-drop, Bool-cases, inl, inr,
  u64, drop-drop, ==_iff, ◌==◌, drop-all, take-all,
}
use lua_mumble.Buffer.{ByteBuffer, buffer_length, reset, pack, move_front, read}
use lua_mumble.Buffer.Storage.{stored, store-eq, load-eq, length-stored, take-stored}
use lua_mumble.Buffer.Contents.{IsValid, contents}

abbrev pub advanced : ByteBuffer → ℕ → ByteBuffer
advanced b size = record b { read_head = b.read_head + size }

abbrev pub unread : ByteBuffer → ℕ
unread b = b.write_head - b.read_head

pub advanced-IsValid :
    (b : ByteBuffer) (size : ℕ) → IsValid b → size ≤ unread b → IsValid (advanced b size)
advanced-IsValid b size v h = record {
  allocated = v.allocated;
  ordered = omega (arith, v.ordered);
  within = v.within;
  small = v.small;
}

-- The bytes that are read from a valid buffer are the first of its contents.
pub front-eq :
    (b : ByteBuffer) (size : ℕ)
    → IsValid b
    → size ≤ unread b
    → take size (drop b.read_head b.mem) ≡ take size (contents b)
front-eq b size v h =
    take-drop size b.read_head b.mem
    ∙ ap (drop b.read_head)
        (sym (take-take (b.read_head + size) b.write_head b.mem (omega (arith, v.ordered))))
    ∙ sym (take-drop size b.read_head (take b.write_head b.mem))

pub contents-advanced :
    (b : ByteBuffer) (size : ℕ) → contents (advanced b size) ≡ drop size (contents b)
contents-advanced b size =
    ap (λ (t : ℕ). drop t (take b.write_head b.mem)) (omega arith)
    ∙ sym (drop-drop size b.read_head (take b.write_head b.mem))

-- `buffer_read` of at most what is there takes it from the front of the contents.
pub read_lem :
    (b : ByteBuffer) (size : ℕ)
    → IsValid b
    → size ≤ length (contents b)
    → (read b size ≡ some (advanced b size, size, take size (contents b)))
      × (contents (advanced b size) ≡ drop size (contents b))
      × IsValid (advanced b size)
unfolding read
read_lem b size v h =
    let there : size ≤ unread b =
      omega (
        arith,
        length-drop b.read_head (take b.write_head b.mem),
        length-take b.write_head b.mem,
      ) in
    let small : u64 (b.read_head + size) ≡ b.read_head + size =
      omega (arith, v.ordered, v.within, v.small) in
    let passes : ltb b.write_head (b.read_head + size) ≡ false = omega (tests, v.ordered) in
    let fits : b.read_head + size ≤ length b.mem =
      omega (arith, v.ordered, v.within, v.allocated) in
    (
      rw (small, passes, load-eq b.mem b.read_head size fits, front-eq b size v there),
      contents-advanced b size,
      advanced-IsValid b size v there,
    )

-- `buffer_read` of more than that returns 0 and changes nothing.
pub read_short :
    (b : ByteBuffer) (size : ℕ)
    → IsValid b
    → length (contents b) < size
    → size < 2 ^ 63
    → read b size ≡ some (b, 0, [])
unfolding read
read_short b size v h k =
    let small : u64 (b.read_head + size) ≡ b.read_head + size =
      omega (arith, v.ordered, v.within, v.small) in
    let fails : ltb b.write_head (b.read_head + size) ≡ true = omega (
      tests,
      length-drop b.read_head (take b.write_head b.mem),
      length-take b.write_head b.mem,
      v.ordered,
      v.within,
      v.allocated,
    ) in
    rw (small, fails)

-- `buffer_pack` keeps the contents and frees the front: the next read is from cell 0.
pub pack_lem :
    (b : ByteBuffer)
    → IsValid b
    → (b' : ByteBuffer) × (pack b ≡ some b')
      × IsValid b'
      × (contents b' ≡ contents b)
      × (b'.read_head ≡ 0)
      × (b'.capacity ≡ b.capacity)
unfolding pack
pack_lem b v = elim (Bool-cases (b.read_head == b.write_head)) [
  | inl empty ↦
      let e : b.read_head ≡ b.write_head = (==_iff b.read_head b.write_head).0 empty in
      let none_left : length (take b.write_head b.mem) ≤ b.read_head =
        omega (arith, length-take b.write_head b.mem) in
      (
        reset b,
        rw empty,
        unfold reset in
            record {
              allocated = v.allocated;
              ordered = omega arith;
              within = omega arith;
              small = v.small;
            },
        unfold reset in sym (drop-all b.read_head (take b.write_head b.mem) none_left),
        unfold reset in refl,
        unfold reset in refl,
      )
  | inr rest ↦ elim (Bool-cases (ltb 0 b.read_head)) [
    | inl behind ↦
        let moved = contents b in
        let size : length moved ≡ unread b = omega (
          arith,
          length-drop b.read_head (take b.write_head b.mem),
          length-take b.write_head b.mem,
          v.within,
          v.allocated,
        ) in
        let fits : 0 + length moved ≤ length b.mem =
          omega (arith, v.ordered, v.within, v.allocated) in
        (
          record b { read_head = 0; write_head = unread b; mem = stored b.mem 0 moved },
          rw (rest, behind) (moves moved refl size fits),
          record {
            allocated = length-stored b.mem 0 moved fits ∙ v.allocated;
            ordered = omega arith;
            within = omega (arith, v.within);
            small = v.small;
          },
          ap (λ (t : ℕ). take t (stored b.mem 0 moved)) (omega (arith, size))
              ∙ take-stored b.mem 0 moved fits,
          refl,
          refl,
        )
    | inr front ↦
        let at_zero : b.read_head ≡ 0 = omega (tests, front) in
        (b, rw (rest, front), v, refl, at_zero, refl)
  ]
]
  where
    moves :
        (moved : List ℕ)
        → moved ≡ contents b
        → length moved ≡ unread b
        → 0 + length moved ≤ length b.mem
        → move_front b
          ≡ some (record b { read_head = 0; write_head = unread b; mem = stored b.mem 0 moved })
    moves moved e size fits =
        let left : buffer_length b ≡ unread b =
          unfold buffer_length in omega (arith, v.ordered, v.within, v.small) in
        let reads : b.read_head + unread b ≤ length b.mem =
          omega (arith, v.ordered, v.within, v.allocated) in
        let whole : take (unread b) (drop b.read_head b.mem) ≡ moved =
          front-eq b (unread b) v (omega arith)
          ∙ take-all (unread b) (contents b)
              (let s : length (contents b) ≤ unread b = rw (← e) (omega arith) in s)
          ∙ sym e in
        unfold move_front in
        rw (left, load-eq b.mem b.read_head (unread b) reads)
          (rw (whole, store-eq b.mem 0 moved fits))
