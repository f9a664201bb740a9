-- ===== src/Ring.antt =====
-- mumble/audio.c: the ring of samples of an audio stream, between one producer and one consumer. The
-- two counters and the occupancy are atomic in C; each function here is one call that runs alone.
-- `none` stands for an access out of the buffer, whose size is the number of its cells.
pub mod Around
pub mod Refine
use lua_mumble.Base.{
  ℕ, ◌+◌, ◌-◌, ◌%◌, ◌<◌, List, [], ◌++◌, Option, none, some, ltb, leb, ◌==◌, if◌then◌else◌, length,
  take, drop, store, load, ◌>>=◌,
}

pub record AudioStream {ℓ} (A : Type ℓ) : Type ℓ where
  pub buffer : List A
  pub head : ℕ
  pub tail : ℕ
  pub used : ℕ

-- `a` cut down to `b`.
abbrev pub at_most : ℕ → ℕ → ℕ
at_most a b = if ltb b a then b else a

module _ {ℓ} {A : Type ℓ} where
  abbrev pub buffer_size : AudioStream A → ℕ
  buffer_size s = length s.buffer

  abbrev pub ring_count : AudioStream A → ℕ
  ring_count s = s.used

  abbrev pub ring_space : AudioStream A → ℕ
  ring_space s = if leb (buffer_size s) (ring_count s) then 0 else buffer_size s - ring_count s

  -- The number of samples taken over from `src`, all of which are offered.
  pub ring_write : AudioStream A → List A → Option (AudioStream A × ℕ)
  ring_write s src =
      let count = at_most (length src) (ring_space s) in
      if count == 0
      then some (s, 0)
      else (let first = at_most (buffer_size s - s.head) count in
          do
            written ← store s.buffer s.head (take first src)
            wrapped ←
                if ltb first count
                then store written 0 (take (count - first) (drop first src))
                else some written
            some (
              record s {
                buffer = wrapped;
                head = (s.head + count) % buffer_size s;
                used = s.used + count;
              },
              count,
            ))

  -- The samples that go to `dst`, and their number.
  pub ring_read : AudioStream A → ℕ → Option (AudioStream A × List A × ℕ)
  ring_read s wanted =
      let count = at_most wanted (ring_count s) in
      if count == 0
      then some (s, [], 0)
      else (let first = at_most (buffer_size s - s.tail) count in
          do
            front ← load s.buffer s.tail first
            back ← if ltb first count then load s.buffer 0 (count - first) else some []
            some (
              record s { tail = (s.tail + count) % buffer_size s; used = s.used - count },
              front ++ back,
              count,
            ))
