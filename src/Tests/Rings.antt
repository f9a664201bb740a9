-- ===== src/Tests/Rings.antt =====
-- A ring of four samples that goes around its end.
use lua_mumble.Base.{ℕ, [], ◌∷◌, some, ◌≡◌, arith}
use lua_mumble.Ring.{AudioStream, ring_read}
use lua_mumble.Ring.Refine.{IsRing, IsLeft, ring_read_lem}

abbrev around : AudioStream ℕ
around = record { buffer = 3 ∷ 4 ∷ 1 ∷ 2 ∷ []; head = 1; tail = 2; used = 3 }

around-IsRing : IsRing around
around-IsRing = record { tail_in = omega arith; used_in = omega arith }

ring_read_lem_example :
    (s' : AudioStream ℕ) × (ring_read around 9 ≡ some (s', 1 ∷ 2 ∷ 3 ∷ [], 3)) × IsLeft around 3 s'
ring_read_lem_example = ring_read_lem around 9 around-IsRing
