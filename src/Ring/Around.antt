-- ===== src/Ring/Around.antt =====
-- mumble/audio.c: what is left of the samples around the end of the buffer.
use lua_mumble.Base.{
  ℕ, zero, suc, ◌+◌, ◌-◌, ◌%◌, ◌≤◌, ◌<◌, List, [], ◌∷◌, ◌++◌, length, take, drop, ◌≡◌, refl, sym,
  ap, ◌∙◌, arith, take-take, take-drop, drop-drop, take-append_le, drop-append_le, length-drop, ◌⊎◌,
  inl, inr,
}
use native.Mathlib.Nat.{mod-eq_of_lt, mod-eq-sub-mod}

le_or_lt : (a b : ℕ) → (a ≤ b) ⊎ (b < a)
le_or_lt a b = omega arith

module _ {ℓ} {A : Type ℓ} where
  -- Of a list that goes on with the beginning of another one, no more is taken than the beginning has.
  take-append-take :
      (k a : ℕ) (xs ys : List A) → k ≤ length xs + a → take k (xs ++ take a ys) ≡ take k (xs ++ ys)
  take-append-take k a [] ys h = take-take k a ys (omega (arith, h))
  take-append-take zero a (x ∷ xs) ys h = refl
  take-append-take (suc k) a (x ∷ xs) ys h =
      ap (◌∷◌ x) (take-append-take k a xs ys (omega (arith, h)))

  drop-append_ge :
      (n : ℕ) (xs ys : List A) → length xs ≤ n → drop n (xs ++ ys) ≡ drop (n - length xs) ys
  drop-append_ge n [] ys h = ap (λ (t : ℕ). drop t ys) (let e : n ≡ n - 0 = omega arith in e)
  drop-append_ge zero (x ∷ xs) ys h = absurd (omega (arith, h))
  drop-append_ge (suc n) (x ∷ xs) ys h =
      let e : n - length xs ≡ suc n - suc (length xs) = omega arith in
      drop-append_ge n xs ys (omega (arith, h)) ∙ ap (λ (t : ℕ). drop t ys) e

  -- `used` samples from the cell `tail` on, around the end.
  abbrev pub from_tail : List A → ℕ → ℕ → List A
  from_tail buffer tail used = take used (drop tail buffer ++ take tail buffer)

  module _ (buffer : List A) (tail used count : ℕ) (tail_in : tail < length buffer)
      (used_in : used ≤ length buffer) (some_of : count ≤ used) where
    straight :
        tail + count < length buffer
        → from_tail buffer (tail + count) (used - count) ≡ drop count (from_tail buffer tail used)
    straight short =
        let rest = drop (tail + count) buffer in
        let ahead : drop count (drop tail buffer) ≡ rest =
          drop-drop count tail buffer
          ∙ ap (λ (t : ℕ). drop t buffer)
              (let e : count + tail ≡ tail + count = omega arith in e) in
        take-append-take (used - count) (tail + count) rest buffer
          (omega (arith, length-drop (tail + count) buffer, used_in, short))
        ∙ sym (
            take-append-take (used - count) tail rest buffer
              (omega (arith, length-drop (tail + count) buffer, used_in, short)))
        ∙ ap (λ xs. take (used - count) (xs ++ take tail buffer)) (sym ahead)
        ∙ ap (take (used - count)) (
            sym (
              drop-append_le count (drop tail buffer) (take tail buffer)
                (omega (arith, length-drop tail buffer, short))))
        ∙ take-drop (used - count) count (drop tail buffer ++ take tail buffer)
        ∙ ap (λ (t : ℕ). drop count (take t (drop tail buffer ++ take tail buffer)))
            (let e : count + (used - count) ≡ used = omega (arith, some_of) in e)

    around :
        length buffer ≤ tail + count
        → from_tail buffer (tail + count - length buffer) (used - count)
          ≡ drop count (from_tail buffer tail used)
    around long =
        let next = tail + count - length buffer in
        take-append_le (used - count) (drop next buffer) (take next buffer)
          (omega (arith, length-drop next buffer, used_in, tail_in, some_of, long))
        ∙ take-drop (used - count) next buffer
        ∙ ap (drop next) (
            sym (
              take-take (next + (used - count)) tail buffer
                (omega (arith, used_in, tail_in, some_of, long))))
        ∙ sym (take-drop (used - count) next (take tail buffer))
        ∙ ap (λ (t : ℕ). take (used - count) (drop t (take tail buffer)))
            (let e : next ≡ count - length (drop tail buffer) =
                omega (arith, length-drop tail buffer, tail_in, long) in
              e)
        ∙ ap (take (used - count)) (
            sym (
              drop-append_ge count (drop tail buffer) (take tail buffer)
                (omega (arith, length-drop tail buffer, long))))
        ∙ take-drop (used - count) count (drop tail buffer ++ take tail buffer)
        ∙ ap (λ (t : ℕ). drop count (take t (drop tail buffer ++ take tail buffer)))
            (let e : count + (used - count) ≡ used = omega (arith, some_of) in e)

    -- What is left after the first `count` samples are read.
    pub from_tail_lem :
        from_tail buffer ((tail + count) % length buffer) (used - count)
        ≡ drop count (from_tail buffer tail used)
    from_tail_lem = elim (le_or_lt (length buffer) (tail + count)) [
      | inl long ↦
          ap (λ (t : ℕ). from_tail buffer t (used - count))
            (mod-eq-sub-mod long ∙ mod-eq_of_lt (omega (arith, tail_in, some_of, used_in)))
          ∙ around long
      | inr short ↦
          ap (λ (t : ℕ). from_tail buffer t (used - count)) (mod-eq_of_lt short) ∙ straight short
    ]
