-- ===== src/Client/Hooks/Balance.antt =====
-- mumble/mumble.c, `mumble_hook_call_ret`: what the functions of a hook leave on Lua's stack.
use lua_mumble.Base.{
  ℕ, List, [], ◌∷◌, ◌++◌, Option, none, some, Bool, true, false, ◌&&◌, ◌==◌, if◌then◌else◌, length,
  drop, ◌≡◌, refl, ap, All, ==_iff, drop-append,
}
use lua_mumble.Client.Hooks.{
  Slot, value, text, function, callbacks, Returned, gives, Entry, callback, other_value, Callbacks,
  Hooks, find, or_empty, Ran, ran, undefined, and_then, results_of, keep_results, after_pcall,
  after_call, is_key, is_ready, hook_turn, hook_loop, hook_from, hook_call, mumble_hook_call,
  slot_of, is_table,
}

-- The functions of a table of callbacks.
unfoldable pub callees : Callbacks → List ℕ
callees [] = []
callees ((key, callback f) ∷ rest) = f ∷ callees rest
callees ((key, other_value v) ∷ rest) = callees rest

-- The function returns, without an error.
abbrev pub Returns : (ℕ → List ℕ → Returned) → List ℕ → ℕ → Type 0
Returns call args f = (values : List ℕ) × (call f args ≡ gives values)

==_same : (k : ℕ) → (k == k) ≡ true
==_same k = (==_iff k k).1 refl

ready_lem : (key : ℕ) (stack : List Slot) → is_ready key (text key ∷ callbacks ∷ stack) ≡ true
unfolding is_ready is_key is_table
ready_lem key stack = simp (==_same key)

pub and_false : (b : Bool) → (b && false) ≡ false
and_false true = refl
and_false false = refl

keep_none :
    (n : ℕ) (stack : List Slot) (called : List ℕ)
    → keep_results n [] stack called ≡ ran n stack called
unfolding keep_results
keep_none n stack called = rw (and_false (n == 0)) refl

module _ (call : ℕ → List ℕ → Returned) (args : List ℕ) where
  -- What a turn has to do for the loop to go on.
  abbrev pub IsQuiet : (ℕ → ℕ → Returned → List Slot → Ran) → Type 0
  IsQuiet after =
      (n f : ℕ) (stack : List Slot)
      → Returns call args f
      → after n f (call f args) stack ≡ ran n stack (f ∷ [])

  module _ (after : ℕ → ℕ → Returned → List Slot → Ran) (quiet : IsQuiet after) where
    -- What the loop does after a turn.
    unfoldable pub go_on : ℕ → Callbacks → List Slot → ℕ → List Slot → List ℕ → Ran
    unfolding is_ready hook_loop
    go_on key rest stack n used called =
        let popped = drop 2 used in
        if is_ready key popped
        then and_then (hook_loop call after args n rest (drop 1 popped))
            (λ m left more. ran m left (called ++ more))
        else undefined

    turn_lem :
        (n key : ℕ) (e : Entry) (stack : List Slot)
        → All (Returns call args) (callees ((key, e) ∷ []))
        → hook_turn call after args n key e (callbacks ∷ stack)
          ≡ ran n (text key ∷ slot_of e ∷ text key ∷ callbacks ∷ stack) (callees ((key, e) ∷ []))
    unfolding hook_turn callees slot_of
    turn_lem n key (callback f) stack (returns, _) =
        quiet n f (text key ∷ function f ∷ text key ∷ callbacks ∷ stack) returns
    turn_lem n key (other_value v) stack _ = refl

    loop_lem :
        (entries : Callbacks) (n : ℕ) (stack : List Slot)
        → All (Returns call args) (callees entries)
        → hook_loop call after args n entries (callbacks ∷ stack) ≡ ran n stack (callees entries)
    unfolding hook_loop callees and_then
    loop_lem [] n stack _ = refl
    loop_lem ((key, callback f) ∷ rest) n stack (returns, others) =
        rw
          (
            turn_lem n key (callback f) stack (returns, tt),
            ready_lem key stack,
            loop_lem rest n stack others,
          )
          refl
    loop_lem ((key, other_value v) ∷ rest) n stack others =
        rw (ready_lem key stack, loop_lem rest n stack others) refl

    -- A function of the table after which the stack is not what Lua defines.
    pub loop_undefined :
        (before rest : Callbacks) (key f n : ℕ) (stack : List Slot)
        → All (Returns call args) (callees before)
        → ((m : ℕ)
            → and_then
                (after m f (call f args) (text key ∷ function f ∷ text key ∷ callbacks ∷ stack))
                (go_on key rest stack)
              ≡ undefined)
        → hook_loop call after args n (before ++ (key, callback f) ∷ rest) (callbacks ∷ stack)
          ≡ undefined
    unfolding hook_loop callees and_then hook_turn go_on
    loop_undefined [] rest key f n stack _ breaks = breaks n
    loop_undefined ((other, callback g) ∷ before) rest key f n stack (returns, others) breaks =
        rw
          (
            turn_lem n other (callback g) stack (returns, tt),
            ready_lem other stack,
            loop_undefined before rest key f n stack others breaks,
          )
          refl
    loop_undefined ((other, other_value v) ∷ before) rest key f n stack others breaks =
        rw (ready_lem other stack, loop_undefined before rest key f n stack others breaks) refl

    pub from_lem :
        (found : Option Callbacks) (slots stack : List Slot)
        → length slots ≡ length args
        → All (Returns call args) (callees (or_empty found))
        → hook_from call after args found (slots ++ stack) ≡ ran 0 stack (callees (or_empty found))
    unfolding hook_from or_empty callees and_then
    from_lem none slots stack same _ =
        ap (λ left. ran 0 left []) (drop-append (length args) slots stack same)
    from_lem (some entries) slots stack same others =
        rw (loop_lem entries 0 (slots ++ stack) others, drop-append (length args) slots stack same)
          refl

pub after_call-IsQuiet :
    (call : ℕ → List ℕ → Returned) (args : List ℕ) → IsQuiet call args after_call
unfolding after_call
after_call-IsQuiet call args n f stack (values, e) = rw (e) refl

pub after_pcall-IsQuiet :
    (on_error : ℕ → List Slot → Ran) (call : ℕ → List ℕ → Returned) (args : List ℕ)
    → IsQuiet call args (after_pcall false on_error)
unfolding after_pcall results_of
after_pcall-IsQuiet on_error call args n f stack (values, e) =
    rw (e, keep_none n stack (f ∷ [])) refl

abbrev pub on_error : (ℕ → List ℕ → Returned) → Hooks → ℕ → List Slot → Ran
on_error call hooks error below =
    hook_from call after_call (error ∷ []) (find 0 hooks) (value error ∷ below)

-- A hook whose functions all return, for a client of the registry: every function of the hook's table is
-- called once, in the order of the table, the arguments are taken off the stack and no result is left.
pub mumble_hook_call_lem :
    (call : ℕ → List ℕ → Returned) (hooks : Hooks) (args : List ℕ) (hook : ℕ)
    (slots stack : List Slot)
    → length slots ≡ length args
    → All (Returns call args) (callees (or_empty (find hook hooks)))
    → mumble_hook_call call hooks true args hook (slots ++ stack)
      ≡ ran 0 stack (callees (or_empty (find hook hooks)))
unfolding mumble_hook_call hook_call
mumble_hook_call_lem call hooks args hook slots stack same others =
    from_lem call args (after_pcall false (on_error call hooks))
      (after_pcall-IsQuiet (on_error call hooks) call args) (find hook hooks) slots stack same
      others
