-- ===== src/Buffer/Lua/Reads.antt =====
-- mumble/buffer.c: several reads in one call.
use lua_mumble.Base.{
  ℕ, ◌+◌, ◌^◌, ◌≤◌, ◌<◌, List, [], ◌∷◌, ◌++◌, map, some, length, take, drop, ◌≡◌, refl, sym, ap,
  ap₂, ◌∙◌, arith, true, false, ◌==◌, All, u64, length-drop, length-take,
}
use mathlib.Core.List.{append_assoc, append-nil}
use lua_mumble.Alloc.{Memory}
use lua_mumble.Buffer.{ByteBuffer}
use lua_mumble.Buffer.Contents.{IsValid, contents}
use lua_mumble.Buffer.Reading.{advanced, read_lem}
use lua_mumble.Buffer.Lua.{
  Value, text, returned, bytes, luabuffer_read, read_formats, read_one, format_size,
}

-- Consecutive pieces of the given sizes, and the sum of the sizes.
unfoldable pub pieces : List ℕ → List ℕ → List Value
pieces [] xs = []
pieces (n ∷ ns) xs = text (take n xs) ∷ pieces ns (drop n xs)

unfoldable pub total : List ℕ → ℕ
total [] = 0
total (n ∷ ns) = n + total ns

-- `malloc` gives every size below 2 ^ 63.
abbrev pub Allocates : Memory → Type 0
Allocates m = (n : ℕ) → n < 2 ^ 63 → (d : List ℕ) × (m.malloc n ≡ some d)

contents_small : (b : ByteBuffer) → IsValid b → length (contents b) < 2 ^ 63
contents_small b v = omega (
  arith,
  length-drop b.read_head (take b.write_head b.mem),
  length-take b.write_head b.mem,
  v.within,
  v.small,
)

module _ (m : Memory) (gives : Allocates m) where
  read_one_lem :
      (b : ByteBuffer) (n : ℕ)
      → IsValid b
      → 0 < n
      → n ≤ length (contents b)
      → read_one m b n ≡ some (advanced b n, true, take n (contents b))
  unfolding read_one
  read_one_lem b n v h k =
      let (d, got) = gives n (omega (arith, contents_small b v)) in
      let n_ok : (n == 0) ≡ false = ground arith in
      let (taken, left, valid) = read_lem b n v k in rw (got, read_one) (rw taken (rw n_ok refl))

  reads :
      (b : ByteBuffer) (ns : List ℕ) (pushed : List Value)
      → IsValid b
      → All (λ (n : ℕ). 0 < n) ns
      → total ns ≤ length (contents b)
      → read_formats m b (map bytes ns) pushed
        ≡ some (returned (advanced b (total ns)) (pushed ++ pieces ns (contents b)))
  unfolding read_formats total pieces format_size
  reads b [] pushed v h k =
      ap₂ (λ (n : ℕ) (p : List Value). some (returned (record b { read_head = n }) p)) (omega arith)
        (sym (append-nil pushed))
  reads b (n ∷ ns) pushed v h k =
      let small : u64 n ≡ n = omega (arith, contents_small b v) in
      let fits : n ≤ length (contents b) = omega arith in
      let (taken, left, valid) = read_lem b n v fits in
      let rest : total ns ≤ length (contents (advanced b n)) =
        omega (arith, ap (λ (t : List ℕ). length t) left, length-drop n (contents b)) in
      let next = pushed ++ (text (take n (contents b)) ∷ []) in
      rw (small, read_one_lem b n v h.0 fits)
        (reads (advanced b n) ns next valid h.1 rest
          ∙ ap₂ (λ (n : ℕ) (p : List Value). some (returned (record b { read_head = n }) p))
              (omega arith)
              (append_assoc pushed (text (take n (contents b)) ∷ []) _
                ∙ ap (λ (t : List ℕ). pushed ++ (text (take n (contents b)) ∷ pieces ns t)) left))

  -- `read` with sizes that are not 0, and that are together no more than what there is to read,
  -- returns one string for each, consecutive pieces of the contents.
  pub luabuffer_read_lem :
      (b : ByteBuffer) (ns : List ℕ)
      → IsValid b
      → All (λ (n : ℕ). 0 < n) ns
      → total ns ≤ length (contents b)
      → luabuffer_read m b (map bytes ns)
        ≡ some (returned (advanced b (total ns)) (pieces ns (contents b)))
  unfolding luabuffer_read
  luabuffer_read_lem b ns v h k = reads b ns [] v h k
