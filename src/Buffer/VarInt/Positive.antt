-- ===== src/Buffer/VarInt/Positive.antt =====
-- mumble/buffer.c: `buffer_readVarInt` on the forms of numbers that are not negative.
use lua_mumble.Base.{
  Option, ap₂, ℕ, suc, ◌+◌, ◌/◌, ◌%◌, ◌^◌, ◌<◌, List, [], ◌∷◌, ◌++◌, some, length, ◌≡◌, refl, ap,
  ◌∙◌, arith,
}
use mathlib.Core.Path.{subst}
use lua_mumble.Varint.{set_bytes}
use lua_mumble.Varint.RoundTrip.{
  set_1, set_2, set_3, set_4, set_5, set_9, sizes, one, two, three, four, five, nine,
}
use lua_mumble.Buffer.{ByteBuffer}
use lua_mumble.Buffer.Reading.{advanced}
use lua_mumble.Buffer.VarInt.{read_form, read_fuel}
use lua_mumble.Buffer.VarInt.Read.{
  Begins, begins-small, begins-available, begins-load, Begins-rest, form_1, form_2, form_3, form_4,
  form_5, form_9,
}

-- The first byte is taken, and the form is read behind it.
pub Begins-tail :
    (b : ByteBuffer) (x : ℕ) (xs rest : List ℕ)
    → Begins b (x ∷ xs) rest
    → Begins (advanced b 1) xs rest
Begins-tail b x xs rest h =
    let first : Begins b (x ∷ []) (xs ++ rest) = record { valid = h.valid; front = h.front } in
    let r = Begins-rest b (x ∷ []) (xs ++ rest) first in record { valid = r.valid; front = r.front }

pub read_first :
    (fuel : ℕ) (b : ByteBuffer) (x : ℕ) (xs rest : List ℕ)
    → Begins b (x ∷ xs) rest
    → read_fuel (suc fuel) b ≡ read_form (read_fuel fuel (advanced b 1)) (advanced b 1) x
unfolding read_fuel
read_first fuel b x xs rest h =
    let first : Begins b (x ∷ []) (xs ++ rest) = record { valid = h.valid; front = h.front } in
    rw
      (
        begins-small b (x ∷ []) (xs ++ rest) first,
        begins-available b (x ∷ []) (xs ++ rest) first,
        begins-load b (x ∷ []) (xs ++ rest) first,
      )
      refl

-- A position that is reached in two steps.
pub advanced_by : (b : ByteBuffer) (n k : ℕ) → k ≡ 1 + n → advanced (advanced b 1) n ≡ advanced b k
advanced_by b n k e = ap (λ (t : ℕ). record b { read_head = t }) (omega arith)

pub read_positive :
    (fuel : ℕ) (b : ByteBuffer) (rest : List ℕ) (v : ℕ)
    → v < 2 ^ 64
    → Begins b (set_bytes v) rest
    → read_fuel (suc fuel) b ≡ some (advanced b (length (set_bytes v)), v, length (set_bytes v))
read_positive fuel b rest v h g = elim (sizes v) [
  | one k ↦
      let g' = turned (set_1 v k) in
      rw (set_1 v k) (read_first fuel b v [] rest g' ∙ form_1 _ _ rest v k)
  | two k l ↦
      let g' = turned (set_2 v k l) in
      rw (set_2 v k l) (
        read_first fuel b _ _ rest g'
        ∙ form_2 _ _ rest (v / 256) (v % 256) (omega arith) (omega arith)
            (Begins-tail b _ _ rest g')
        ∙ ends 1 (omega arith))
  | three k l ↦
      let g' = turned (set_3 v k l) in
      rw (set_3 v k l) (
        read_first fuel b _ _ rest g'
        ∙ form_3 _ _ rest (v / 2 ^ 16) (v / 256 % 256) (v % 256) (omega arith) (omega arith)
            (omega arith) (Begins-tail b _ _ rest g')
        ∙ ends 2 (omega arith))
  | four k l ↦
      let g' = turned (set_4 v k l) in
      rw (set_4 v k l) (
        read_first fuel b _ _ rest g'
        ∙ form_4 _ _ rest (v / 2 ^ 24) (v / 2 ^ 16 % 256) (v / 256 % 256) (v % 256) (omega arith)
            (omega arith) (omega arith) (omega arith) (Begins-tail b _ _ rest g')
        ∙ ends 3 (omega arith))
  | five k l ↦
      let g' = turned (set_5 v k l) in
      rw (set_5 v k l) (
        read_first fuel b _ _ rest g'
        ∙ form_5 _ _ rest (v / 2 ^ 24 % 256) (v / 2 ^ 16 % 256) (v / 256 % 256) (v % 256)
            (omega arith) (omega arith) (omega arith) (Begins-tail b _ _ rest g')
        ∙ ends 4 (omega arith))
  | nine k ↦
      let g' = turned (set_9 v k) in
      rw (set_9 v k) (
        read_first fuel b _ _ rest g'
        ∙ form_9 _ _ rest (v / 2 ^ 56 % 256) (v / 2 ^ 48 % 256) (v / 2 ^ 40 % 256)
            (v / 2 ^ 32 % 256) (v / 2 ^ 24 % 256) (v / 2 ^ 16 % 256) (v / 256 % 256) (v % 256)
            (omega arith) (omega arith) (omega arith) (omega arith) (omega arith) (omega arith)
            (omega arith) (Begins-tail b _ _ rest g')
        ∙ ends 8 (omega arith))
]
  where
    result : ByteBuffer → ℕ → ℕ → Option (ByteBuffer × ℕ × ℕ)
    result c t n = some (c, t, suc n)

    turned : {l : List ℕ} → set_bytes v ≡ l → Begins b l rest
    turned e = subst (λ (l : List ℕ). Begins b l rest) e g

    ends :
        (n : ℕ) {t : ℕ}
        → t ≡ v
        → result (advanced (advanced b 1) n) t n ≡ result (advanced b (suc n)) v n
    ends n e =
        ap₂ (λ (c : ByteBuffer) (t : ℕ). result c t n) (advanced_by b n (suc n) (omega arith)) e
