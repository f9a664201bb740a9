-- ===== src/Threads/Bytecode/Pieces.antt =====
-- mumble/thread.c: the bytecode of a function is its pieces, one after the other.
use mathlib.Core.List.{append-nil, append_assoc}
use mathlib.Core.Path.{subst}
use Prim.Native.Nat.{min}
use lua_mumble.Base.{
  u64, take-all, drop-all, ℕ, ◌+◌, ◌^◌, ◌<◌, List, [], ◌∷◌, ◌++◌, Option, none, some, true, false,
  leb, ◌>>=◌, store, length, take, ◌≡◌, ◌≢◌, refl, sym, ap, ◌∙◌, arith, All, length-append,
}
use lua_mumble.Alloc.{Memory, IsMemory}
use lua_mumble.Threads.Bytecode.{
  Dump, no_dump, reallocate, written, dump_controller, dump_next, dump_pieces, filename, function,
  neither, script_dump,
}

unfoldable pub bytes_of_dump : Option (List ℕ) → List ℕ
bytes_of_dump none = []
bytes_of_dump (some bytecode) = bytecode

unfoldable pub concat : List (List ℕ) → List ℕ
concat [] = []
concat (piece ∷ rest) = piece ++ concat rest

-- The size is that of the bytecode.
pub record IsSized (dump : Dump) : Type 0 where
  pub sized : dump.bytecode_size ≡ length (bytes_of_dump dump.bytecode)

reallocate_lem :
    (m : Memory) (old : Option (List ℕ)) (more n : ℕ) (new : List ℕ)
    → IsMemory m
    → n ≡ length (bytes_of_dump old) + more
    → reallocate m old n ≡ some new
    → (length new ≡ n) × (take (length (bytes_of_dump old)) new ≡ bytes_of_dump old) × (n < 2 ^ 63)
unfolding reallocate bytes_of_dump
reallocate_lem m none more n new h size e = (h.malloc_length n e, refl, h.malloc_small n e)
reallocate_lem m (some old) more n new h size e =
    let least : min (length old) n ≡ length old = omega (arith, size) in
    (
      h.realloc_length old n e,
      ap (λ (k : ℕ). take k new) (sym least)
          ∙ h.realloc_keeps old n e
          ∙ ap (λ (k : ℕ). take k old) least
          ∙ take-all (length old) old (omega arith),
      h.realloc_small old n e,
    )

-- A piece in an allocation that has just the room for it.
store_end :
    (new kept piece : List ℕ)
    → length new ≡ length kept + length piece
    → take (length kept) new ≡ kept
    → store new (length kept) piece ≡ some (kept ++ piece)
unfolding store
store_end new kept piece size e =
    let fits : leb (length kept + length piece) (length new) ≡ true = ground (arith, size) in
    rw (fits, e, drop-all (length kept + length piece) new (omega (arith, size)))
      (ap some (ap (λ l. kept ++ l) (append-nil piece)))

-- What one piece adds.
abbrev pub Extends : Dump → List ℕ → Dump → Type 0
Extends dump piece dump' =
    IsSized dump'
    × (bytes_of_dump dump'.bytecode ≡ bytes_of_dump dump.bytecode ++ piece)
    × (length (bytes_of_dump dump'.bytecode) < 2 ^ 63)

written_lem :
    (o : Option (List ℕ)) (piece : List ℕ) (dump dump' : Dump) (n : ℕ)
    → ((new : List ℕ)
        → o ≡ some new
        → (length new ≡ n)
          × (take (length (bytes_of_dump dump.bytecode)) new ≡ bytes_of_dump dump.bytecode)
          × (n < 2 ^ 63))
    → n ≡ length (bytes_of_dump dump.bytecode) + length piece
    → length piece < 2 ^ 63
    → IsSized dump
    → length (bytes_of_dump dump.bytecode) < 2 ^ 63
    → (written o piece dump ≢ none)
      × (written o piece dump ≡ some (false, dump') → Extends dump piece dump')
unfolding written
written_lem none piece dump dump' n got size fits h small =
    (λ e. ground (arith, e), λ e. absurd (ground (arith, e)))
written_lem (some new) piece dump dump' n got size fits h small =
    let kept = bytes_of_dump dump.bytecode in
    let (total, keeps, limit) = got new refl in
    let stored : store new dump.bytecode_size piece ≡ some (kept ++ piece) =
      ap (λ (k : ℕ). store new k piece) h.sized ∙ store_end new kept piece (total ∙ size) keeps in
    let next : Dump = record {
      bytecode = some (kept ++ piece);
      bytecode_size = u64 (dump.bytecode_size + length piece);
    } in
    let done : written (some new) piece dump ≡ some (false, next) =
      ap
        (λ o. o >>= λ filled. some (
          false,
          record {
            bytecode = some filled;
            bytecode_size = u64 (dump.bytecode_size + length piece);
          },
        ))
        stored in
    let extended : Extends dump piece next = (
      record {
        sized =
            unfold bytes_of_dump in omega (arith, h.sized, length-append kept piece, small, fits);
      },
      unfold bytes_of_dump in refl,
      unfold bytes_of_dump in omega (arith, length-append kept piece, size, limit),
    ) in
    (
      λ e. absurd (ground (arith, e, done)),
      λ e. subst (λ d. Extends dump piece d) (ground (arith, e, done)) extended,
    )

dump_controller_lem :
    (m : Memory) (piece : List ℕ) (dump dump' : Dump)
    → IsMemory m
    → IsSized dump
    → length (bytes_of_dump dump.bytecode) < 2 ^ 63
    → length piece < 2 ^ 63
    → (dump_controller m piece dump ≢ none)
      × (dump_controller m piece dump ≡ some (false, dump') → Extends dump piece dump')
unfolding dump_controller
dump_controller_lem m piece dump dump' memory h small fits =
    let room : u64 (dump.bytecode_size + length piece)
        ≡ length (bytes_of_dump dump.bytecode) + length piece =
      omega (arith, h.sized, small, fits) in
    written_lem (reallocate m dump.bytecode (u64 (dump.bytecode_size + length piece))) piece dump
      dump' (u64 (dump.bytecode_size + length piece))
      (λ new e. reallocate_lem m dump.bytecode (length piece) _ new memory room e) room fits h small

dump_pieces_lem :
    (m : Memory) (pieces : List (List ℕ)) (dump dump' : Dump)
    → IsMemory m
    → IsSized dump
    → length (bytes_of_dump dump.bytecode) < 2 ^ 63
    → All (λ piece. length piece < 2 ^ 63) pieces
    → (dump_pieces m pieces dump ≢ none)
      × (dump_pieces m pieces dump ≡ some (false, dump')
          → IsSized dump'
            × (bytes_of_dump dump'.bytecode ≡ bytes_of_dump dump.bytecode ++ concat pieces))
unfolding dump_pieces concat
dump_pieces_lem m [] dump dump' memory h small fit = (
  λ e. absurd (ground (arith, e)),
  λ e.
      let same : dump ≡ dump' = ground (arith, e) in
      (
        subst (λ d. IsSized d) same h,
        ap (λ d. bytes_of_dump d.bytecode) (sym same)
            ∙ sym (append-nil (bytes_of_dump dump.bytecode)),
      ),
)
dump_pieces_lem m (piece ∷ rest) dump dump' memory h small (fits, fit) =
    elim (dump_controller m piece dump)
        as (λ o.
          o ≡ dump_controller m piece dump
          → (o >>= dump_next (dump_pieces m rest) ≢ none)
            × (o >>= dump_next (dump_pieces m rest) ≡ some (false, dump')
                → IsSized dump'
                  × (bytes_of_dump dump'.bytecode
                      ≡ bytes_of_dump dump.bytecode ++ (piece ++ concat rest)))) [
                        | none ↦ λ e.
                            absurd (
                              (dump_controller_lem m piece dump dump memory h small fits).0 (sym e))
                        | some (true, next) ↦ λ e.
                            ((λ f. absurd (ground (arith, f))), λ f. absurd (ground (arith, f)))
                        | some (false, next) ↦ λ e.
                            let (sized, more, limit) =
                              (dump_controller_lem m piece dump next memory h small fits).1
                                (sym e) in
                            let (total, right) =
                              dump_pieces_lem m rest next dump' memory sized limit fit in
                            (
                              total,
                              λ f.
                                  let (sized', all) = right f in
                                  (
                                    sized',
                                    all
                                        ∙ ap (λ l. l ++ concat rest) more
                                        ∙ append_assoc (bytes_of_dump dump.bytecode) piece
                                            (concat rest),
                                  ),
                            )
                      ]
      refl

-- Copying a worker function never stores past an allocation, and the bytecode of a thread that is made is all
-- the pieces of `lua_dump`, one after the other, with their size; a file has no bytecode.
pub script_dump_lem :
    (m : Memory) (dump : Dump)
    → IsMemory m
    → ((pieces : List (List ℕ))
        → All (λ piece. length piece < 2 ^ 63) pieces
        → (script_dump m (function pieces) ≢ none)
          × (script_dump m (function pieces) ≡ some (false, dump)
              → (bytes_of_dump dump.bytecode ≡ concat pieces)
                × (dump.bytecode_size ≡ length (concat pieces))))
      × (script_dump m filename ≡ some (false, no_dump))
      × (script_dump m neither ≢ some (false, dump))
unfolding script_dump no_dump bytes_of_dump
script_dump_lem m dump memory = (
  λ pieces fit.
      let (total, right) =
        dump_pieces_lem m pieces no_dump dump memory (record { sized = refl }) (omega arith) fit in
      (total, λ e. let (h, all) = right e in (all, h.sized ∙ ap length all)),
  refl,
  λ e. ground (arith, e),
)
