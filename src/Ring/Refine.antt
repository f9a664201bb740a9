-- ===== src/Ring/Refine.antt =====
-- mumble/audio.c: the ring is a queue of samples.
use lua_mumble.Base.{
  ℕ, zero, suc, ◌+◌, ◌-◌, ◌%◌, ◌≤◌, ◌<◌, List, [], ◌∷◌, ◌++◌, some, length, take, drop, ◌≡◌, refl,
  sym, ap, ap₂, ◌∙◌, arith, ltb, tests, ◌==◌, false, Bool-cases, inl, inr, take-take, take-all,
  take-append_le, length-drop,
}
use mathlib.Core.List.{append-nil}
use lua_mumble.Buffer.Storage.{load-eq}
use native.Mathlib.Nat.{mod-lt}
use lua_mumble.Ring.Around.{from_tail, from_tail_lem}
use lua_mumble.Ring.{AudioStream, buffer_size, at_most, ring_read}

least : (room count : ℕ) → count ≤ room → at_most room count ≡ count
least room count h = ground arith

least_room : (room count : ℕ) → room < count → at_most room count ≡ room
least_room room count h = ground arith

module _ {ℓ} {A : Type ℓ} where
  take-append_ge :
      (n : ℕ) (xs ys : List A) → length xs ≤ n → take n (xs ++ ys) ≡ xs ++ take (n - length xs) ys
  take-append_ge n [] ys h = ap (λ (t : ℕ). take t ys) (let e : n ≡ n - 0 = omega arith in e)
  take-append_ge zero (x ∷ xs) ys h = absurd (omega arith)
  take-append_ge (suc n) (x ∷ xs) ys h =
      let e : n - length xs ≡ suc n - suc (length xs) = omega arith in
      ap (◌∷◌ x) (take-append_ge n xs ys (omega arith) ∙ ap (λ (t : ℕ). xs ++ take t ys) e)

  -- The tail is a cell, and no more is used than there are cells.
  pub record IsRing (s : AudioStream A) : Type ℓ where
    pub tail_in : s.tail < buffer_size s
    pub used_in : s.used ≤ buffer_size s

  -- The samples, oldest first: from the tail on, around the end.
  abbrev pub samples : AudioStream A → List A
  samples s = from_tail s.buffer s.tail s.used

  -- What a read leaves: the buffer and the head as they were, and the samples after the first `count` ones.
  pub record IsLeft (s : AudioStream A) (count : ℕ) (s' : AudioStream A) : Type ℓ where
    pub same_buffer : s'.buffer ≡ s.buffer
    pub same_head : s'.head ≡ s.head
    pub used_less : s'.used ≡ s.used - count
    pub left : samples s' ≡ drop count (samples s)
    pub ring : IsRing s'

  nothing_read : (s : AudioStream A) (count : ℕ) → IsRing s → count ≡ 0 → IsLeft s count s
  nothing_read s count h e = record {
    same_buffer = refl;
    same_head = refl;
    used_less = omega (arith, e);
    left = ap (λ (t : ℕ). drop t (samples s)) (sym e);
    ring = h;
  }

  advanced : AudioStream A → ℕ → AudioStream A
  advanced s count = record s { tail = (s.tail + count) % buffer_size s; used = s.used - count }

  some_read :
      (s : AudioStream A) (count : ℕ)
      → IsRing s
      → count ≤ s.used
      → IsLeft s count (advanced s count)
  unfolding advanced
  some_read s count h enough = record {
    same_buffer = refl;
    same_head = refl;
    used_less = refl;
    left = from_tail_lem s.buffer s.tail s.used count h.tail_in h.used_in enough;
    ring = record {
      tail_in = mod-lt (s.tail + count) (omega (arith, h.tail_in));
      used_in = omega (arith, h.used_in);
    };
  }

  -- `ring_read` gives the oldest samples in their order, as many as are wanted and there are, also
  -- where they go around the end of the buffer. The others are left in their order, so that the next read
  -- goes on after them; the buffer and the head are as they were, and the ring stays valid.
  pub ring_read_lem :
      (s : AudioStream A) (wanted : ℕ)
      → IsRing s
      → let count = at_most wanted s.used in
        (s' : AudioStream A) × (ring_read s wanted ≡ some (s', take count (samples s), count))
        × IsLeft s count s'
  unfolding ring_read advanced
  ring_read_lem s wanted h =
      let count = at_most wanted s.used in
      let counted : count ≤ s.used = ground arith in
      let after = advanced s count in
      let left = some_read s count h counted in
      elim (Bool-cases (at_most wanted s.used == 0)) [
        | inl none_left ↦
            let e : at_most wanted s.used ≡ 0 = ground arith in
            (s, rw none_left (rw e refl), nothing_read s count h e)
        | inr some_left ↦ elim (Bool-cases (ltb (buffer_size s - s.tail) count)) [
          | inr straight ↦
              let first : at_most (buffer_size s - s.tail) count ≡ count =
                least (buffer_size s - s.tail) count (omega (tests, straight)) in
              let same : ltb count count ≡ false = omega tests in
              (
                after,
                rw some_left (
                    rw first (
                      rw (load-eq s.buffer s.tail count (omega (tests, straight, h.tail_in)), same)
                        (ap (λ (out : List A). some (after, out, count))
                          (append-nil _
                            ∙ sym (
                                take-take count s.used _ counted
                                ∙ take-append_le count (drop s.tail s.buffer) _
                                    (omega (tests, straight, length-drop s.tail s.buffer))))))),
                left,
              )
          | inl around ↦
              let room = buffer_size s - s.tail in
              let first : at_most room count ≡ room =
                least_room room count (omega (tests, around)) in
              let post : length (drop s.tail s.buffer) ≡ room = length-drop s.tail s.buffer in
              (
                after,
                rw some_left (
                    rw first (
                      rw (load-eq s.buffer s.tail room (omega (arith, h.tail_in)), around)
                        (rw (load-eq s.buffer 0 (count - room) (omega (arith, h.used_in))) (
                          ap (λ (out : List A). some (after, out, count))
                            (ap₂ ◌++◌ (take-all room (drop s.tail s.buffer) (omega (arith, post))) (
                                sym (
                                  take-take (count - room) s.tail s.buffer
                                    (omega (arith, h.used_in)))
                                ∙ ap (λ (t : ℕ). take (count - t) (take s.tail s.buffer))
                                    (sym post))
                              ∙ sym (
                                  take-append_ge count (drop s.tail s.buffer) (take s.tail s.buffer)
                                    (omega (tests, around, post)))
                              ∙ sym (take-take count s.used _ counted)))))),
                left,
              )
        ]
      ]
