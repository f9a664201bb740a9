-- ===== src/Strndup.antt =====
-- `strndup` as mumble/packet.c and mumble/thread.c use it: bytes that are copied as a text and read back
-- by the length that they had.
use lua_mumble.Base.{
  length-take, length-drop, take-append-drop, ℕ, zero, suc, ◌+◌, ◌<◌, List, [], ◌∷◌, ◌++◌, Option,
  none, some, ◌==◌, leb, if◌then◌else◌, ◌>>=◌, load, length, take, drop, ◌≡◌, ◌≢◌, inl, inr, refl,
  sym, ap, ◌∙◌, arith, All, Bool-cases, length-append, take-append,
}

-- `strndup` stops at the first zero.
unfoldable pub strndup : List ℕ → List ℕ
strndup [] = []
strndup (b ∷ rest) = if b == 0 then [] else b ∷ strndup rest

-- As many bytes of the copy as the field had; the copy has one byte more than its text.
unfoldable pub read_copy : List ℕ → Option (List ℕ)
unfolding strndup
read_copy bytes = load (strndup bytes ++ 0 ∷ []) 0 (length bytes)

-- At most `n` cells of a memory.
unfoldable pub strndup_cells : ℕ → List ℕ → Option (List ℕ)
strndup_cells zero cells = some []
strndup_cells (suc n) [] = none
strndup_cells (suc n) (c ∷ cells) =
    if c == 0 then some [] else (strndup_cells n cells >>= λ rest. some (c ∷ rest))

-- Bytes without a zero.
unfoldable pub IsText : List ℕ → Type 0
IsText bytes = All (λ b. b ≢ 0) bytes

pub strndup_text : (bytes : List ℕ) → IsText bytes → strndup bytes ≡ bytes
unfolding strndup IsText
strndup_text [] h = refl
strndup_text (b ∷ rest) (n, h) = ground (arith, n, strndup_text rest h)

pub strndup_zero : (before rest : List ℕ) → IsText before → strndup (before ++ 0 ∷ rest) ≡ before
unfolding strndup IsText
strndup_zero [] rest h = refl
strndup_zero (b ∷ before) rest (n, h) = ground (arith, n, strndup_zero before rest h)

pub strndup_cells_text :
    (bytes more : List ℕ) → IsText bytes → strndup_cells (length bytes) (bytes ++ more) ≡ some bytes
unfolding strndup_cells IsText
strndup_cells_text [] more h = refl
strndup_cells_text (b ∷ rest) more (n, h) = ground (arith, n, strndup_cells_text rest more h)

pub load_all : (xs ys : List ℕ) → load (xs ++ ys) 0 (length xs) ≡ some xs
unfolding load
load_all xs ys = ground (arith, length-append xs ys, take-append (length xs) xs ys refl)

load_past : (mem : List ℕ) (n : ℕ) → length mem < n → load mem 0 n ≡ none
unfolding load
load_past mem n h = ground (arith, h)

pub read_copy_text : (bytes : List ℕ) → IsText bytes → read_copy bytes ≡ some bytes
unfolding read_copy
read_copy_text bytes h =
    ap (λ text. load (text ++ 0 ∷ []) 0 (length bytes)) (strndup_text bytes h)
    ∙ load_all bytes (0 ∷ [])

pub read_copy_zero :
    (before rest : List ℕ) (c : ℕ) → IsText before → read_copy (before ++ 0 ∷ c ∷ rest) ≡ none
unfolding read_copy
read_copy_zero before rest c h =
    ap (λ text. load (text ++ 0 ∷ []) 0 (length (before ++ 0 ∷ c ∷ rest)))
      (strndup_zero before (c ∷ rest) h)
    ∙ load_past (before ++ 0 ∷ []) _
        (omega (arith, length-append before (0 ∷ []), length-append before (0 ∷ c ∷ rest)))

-- A text in a memory is copied as what a load of it gives.
pub strndup_load :
    (mem : List ℕ) (at n : ℕ) (bytes : List ℕ)
    → load mem at n ≡ some bytes
    → IsText bytes
    → (strndup_cells n (drop at mem) ≡ some bytes) × (length bytes ≡ n)
unfolding load
strndup_load mem at n bytes e h = elim (Bool-cases (leb (at + n) (length mem))) [
  | inr out ↦ absurd (ground (arith, e, out))
  | inl within ↦
      let taken : take n (drop at mem) ≡ bytes = ground (arith, e, within) in
      let size : length bytes ≡ n =
        ap length (sym taken)
        ∙ length-take n (drop at mem)
        ∙ ground (arith, length-drop at mem, within) in
      (
        ap (strndup_cells n)
              (sym (take-append-drop n (drop at mem)) ∙ ap (λ l. l ++ drop n (drop at mem)) taken)
            ∙ ap (λ (k : ℕ). strndup_cells k (bytes ++ drop n (drop at mem))) (sym size)
            ∙ strndup_cells_text bytes (drop n (drop at mem)) h,
        size,
      )
]
