-- ===== src/Buffer/Storage.antt =====
-- `memcpy` on a storage with a front part in use: what an access in range reads and leaves.
use lua_mumble.Base.{
  length-take, length-drop, take-take, take-append_le, drop-drop, drop-append, ℕ, ◌+◌, ◌≤◌, ◌<◌,
  List, ◌++◌, none, some, true, false, leb, load, store, length, take, drop, ◌≡◌, refl, sym, ap,
  ◌∙◌, arith, length-append, take-append,
}
use mathlib.Core.List.{append_assoc}

-- What a store in range leaves.
unfoldable pub stored {ℓ} : {A : Type ℓ} → List A → ℕ → List A → List A
stored mem at src = take at mem ++ (src ++ drop (at + length src) mem)

module _ {ℓ} {A : Type ℓ} where
  pub store-eq :
      (mem : List A) (at : ℕ) (src : List A)
      → at + length src ≤ length mem
      → store mem at src ≡ some (stored mem at src)
  unfolding store stored
  store-eq mem at src h = let e : leb (at + length src) (length mem) ≡ true = ground arith in rw e

  pub store_out :
      (mem : List A) (at : ℕ) (src : List A)
      → length mem < at + length src
      → store mem at src ≡ none
  unfolding store
  store_out mem at src h = let e : leb (at + length src) (length mem) ≡ false = ground arith in rw e

  pub load-eq :
      (mem : List A) (at n : ℕ) → at + n ≤ length mem → load mem at n ≡ some (take n (drop at mem))
  unfolding load
  load-eq mem at n h = let e : leb (at + n) (length mem) ≡ true = ground arith in rw e

  pub length-stored :
      (mem : List A) (at : ℕ) (src : List A)
      → at + length src ≤ length mem
      → length (stored mem at src) ≡ length mem
  unfolding stored
  length-stored mem at src h = omega (
    arith,
    length-append (take at mem) (src ++ drop (at + length src) mem),
    length-append src (drop (at + length src) mem),
    length-take at mem,
    length-drop (at + length src) mem,
  )

  -- The cells up to the end of what was stored.
  pub take-stored :
      (mem : List A) (at : ℕ) (src : List A)
      → at + length src ≤ length mem
      → take (at + length src) (stored mem at src) ≡ take at mem ++ src
  unfolding stored
  take-stored mem at src h = rw (← append_assoc (take at mem) src (drop (at + length src) mem)) (
      take-append (at + length src) (take at mem ++ src) _
        (omega (arith, length-append (take at mem) src, length-take at mem)))

  -- The cells before what was stored.
  pub take-stored_le :
      (mem : List A) (at k : ℕ) (src : List A)
      → at ≤ length mem
      → k ≤ at
      → take k (stored mem at src) ≡ take k mem
  unfolding stored
  take-stored_le mem at k src h l =
      take-append_le k (take at mem) _ (omega (arith, length-take at mem)) ∙ take-take k at mem l

  -- A store behind what is already there.
  pub stored-append :
      (before mem src : List A)
      → stored (before ++ mem) (length before) src ≡ before ++ (src ++ drop (length src) mem)
  unfolding stored
  stored-append before mem src =
      let rest : drop (length before + length src) (before ++ mem) ≡ drop (length src) mem =
        ap (λ (n : ℕ). drop n (before ++ mem))
          (let e : length before + length src ≡ length src + length before = omega arith in e)
        ∙ sym (drop-drop (length src) (length before) (before ++ mem))
        ∙ ap (drop (length src)) (drop-append (length before) before mem refl) in
      ap (λ l. l ++ (src ++ drop (length before + length src) (before ++ mem)))
        (take-append (length before) before mem refl)
      ∙ ap (λ l. before ++ (src ++ l)) rest

  pub store-append :
      (before mem src : List A)
      → length src ≤ length mem
      → store (before ++ mem) (length before) src ≡ some (before ++ (src ++ drop (length src) mem))
  store-append before mem src h =
      store-eq (before ++ mem) (length before) src (omega (arith, length-append before mem))
      ∙ ap some (stored-append before mem src)
