-- ===== src/Client/Hooks.antt =====
-- mumble/mumble.c and mumble/client.c: the hooks of a client, as Lua's stack sees them. The stack has its top
-- first. Texts, functions and values are their numbers; what a function does is an argument. The results of
-- functions are no tables.
pub mod Balance
pub mod Failures
use lua_mumble.Base.{
  ℕ, get_elem?, u8, u16, u32, u64, ℤ, bit_and, bit_or, ◌<<◌, ◌>>◌, zero, suc, ◌+◌, ◌-◌, ◌*◌, ◌/◌,
  ◌%◌, ◌^◌, ◌≤◌, ◌<◌, List, [], ◌∷◌, ◌++◌, map, Option, none, some, Bool, true, false, not, ◌&&◌,
  ◌||◌, ◌==◌, ltb, leb, if◌then◌else◌, ◌>>=◌, load, store, length, take, drop, ◌≡◌, ◌≢◌, ◌⊎◌, ◌↔◌,
  inl, inr, refl, sym, ap, ◌∙◌, arith, All, Bool-cases, Option-cases, ==_iff, length-append,
  take-append, String,
}

pub data Slot : Type 0 where
  value : ℕ → Slot
  text : ℕ → Slot
  function : ℕ → Slot
  callbacks : Slot
  client : Slot
  traceback : Slot

-- What a function does: it raises an error with a value, or returns values, the last one first.
pub data Returned : Type 0 where
  fails : ℕ → Returned
  gives : List ℕ → Returned

-- What is at a name of a table of callbacks: a function, or any other value.
pub data Entry : Type 0 where
  callback : ℕ → Entry
  other_value : ℕ → Entry

-- The tables of callbacks by the name of their hook, and the callbacks by theirs.
abbrev pub Callbacks : Type 0
Callbacks = List (ℕ × Entry)

abbrev pub Hooks : Type 0
Hooks = List (ℕ × Callbacks)

unfoldable pub find : {A : Type 0} → ℕ → List (ℕ × A) → Option A
find k [] = none
find k ((j, a) ∷ rest) = if j == k then some a else find k rest

-- `lua_setfield`: a new name goes to the end.
unfoldable pub set_field : {A : Type 0} → ℕ → A → List (ℕ × A) → List (ℕ × A)
set_field k a [] = (k, a) ∷ []
set_field k a ((j, b) ∷ rest) = if j == k then (j, a) ∷ rest else (j, b) ∷ set_field k a rest

unfoldable pub remove_field : {A : Type 0} → ℕ → List (ℕ × A) → List (ℕ × A)
remove_field k [] = []
remove_field k ((j, b) ∷ rest) = if j == k then rest else (j, b) ∷ remove_field k rest

unfoldable pub or_empty : Option Callbacks → Callbacks
or_empty none = []
or_empty (some found) = found

-- The number of the function, and the name that it is kept at.
pub client_hook : ℕ → ℕ → ℕ → Hooks → Hooks
unfolding find set_field or_empty
client_hook hook name f hooks =
    set_field hook (set_field name (callback f) (or_empty (find hook hooks))) hooks

unfoldable pub unhook_from : ℕ → ℕ → Option Callbacks → Hooks → Hooks
unfolding set_field remove_field
unhook_from hook name none hooks = hooks
unhook_from hook name (some found) hooks = set_field hook (remove_field name found) hooks

pub client_unhook : ℕ → ℕ → Hooks → Hooks
unfolding unhook_from find
client_unhook hook name hooks = unhook_from hook name (find hook hooks) hooks

-- How a hook ends: with the results that it says are on the stack, the stack, and the functions that were
-- called; with an error; or in a use of the stack that Lua does not define.
pub data Ran : Type 0 where
  ran : ℕ → List Slot → List ℕ → Ran
  raised : Ran
  undefined : Ran

unfoldable pub and_then : Ran → (ℕ → List Slot → List ℕ → Ran) → Ran
and_then (ran n stack called) k = k n stack called
and_then raised k = raised
and_then undefined k = undefined

-- `lua_remove` at a place counted from the bottom.
unfoldable pub lua_remove : ℕ → List Slot → (List Slot → Ran) → Ran
lua_remove at stack k =
    if at == 0 || ltb (length stack) at
    then undefined
    else k (take (length stack - at) stack ++ drop (suc (length stack - at)) stack)

unfoldable pub results_of : Bool → List ℕ → List Slot
results_of true values = map value values
results_of false values = []

-- The results of a function stand above the rest of the loop's stack, without the traceback: the first results
-- are kept. `nreturns` are those that were kept before.
unfoldable pub keep_results : ℕ → List Slot → List Slot → List ℕ → Ran
keep_results nreturns results stack called =
    if nreturns == 0 && ltb 0 (length results)
    then ran (length results) (results ++ stack) called
    else ran nreturns stack called

-- What comes after `lua_pcall`: `on_error` is the call of the hook OnError with the error on the stack.
unfoldable pub after_pcall : Bool → (ℕ → List Slot → Ran) → ℕ → ℕ → Returned → List Slot → Ran
unfolding lua_remove results_of keep_results
after_pcall multret on_error nreturns f (gives values) stack =
    keep_results nreturns (results_of multret values) stack (f ∷ [])
after_pcall multret on_error nreturns f (fails error) stack =
    and_then (on_error error (traceback ∷ stack)) (λ n handled called.
      lua_remove (suc (length stack)) (drop 1 handled) (λ left. ran nreturns left (f ∷ called)))

-- `lua_call` in the hook OnError: an error is not caught, and there are no results.
unfoldable pub after_call : ℕ → ℕ → Returned → List Slot → Ran
after_call nreturns f (gives values) stack = ran nreturns stack (f ∷ [])
after_call nreturns f (fails error) stack = raised

-- `lua_next(l, -2)` is right where the last name is on top and the table below it.
unfoldable pub is_key : ℕ → Slot → Bool
is_key key (text k) = k == key
is_key key (value v) = false
is_key key (function f) = false
is_key key callbacks = false
is_key key client = false
is_key key traceback = false

unfoldable pub is_table : Slot → Bool
is_table callbacks = true
is_table (text k) = false
is_table (value v) = false
is_table (function f) = false
is_table client = false
is_table traceback = false

unfoldable pub is_ready : ℕ → List Slot → Bool
unfolding is_key is_table
is_ready key [] = false
is_ready key (top ∷ []) = false
is_ready key (top ∷ table ∷ rest) = is_key key top && is_table table

unfoldable pub slot_of : Entry → Slot
slot_of (callback f) = function f
slot_of (other_value v) = value v

module _ (call : ℕ → List ℕ → Returned) (after : ℕ → ℕ → Returned → List Slot → Ran)
    (args : List ℕ) where
  -- One turn of the loop on a stack with the name on top; it leaves the name there again.
  unfoldable pub hook_turn : ℕ → ℕ → Entry → List Slot → Ran
  unfolding slot_of
  hook_turn nreturns key (callback f) stack =
      after nreturns f (call f args) (text key ∷ function f ∷ text key ∷ stack)
  hook_turn nreturns key (other_value v) stack =
      ran nreturns (text key ∷ value v ∷ text key ∷ stack) []

  -- The table is on top; at the end `lua_next` has taken the last name, and the table is popped.
  unfoldable pub hook_loop : ℕ → Callbacks → List Slot → Ran
  unfolding hook_turn is_ready
  hook_loop nreturns [] stack = ran nreturns (drop 1 stack) []
  hook_loop nreturns ((key, entry) ∷ rest) stack =
      and_then (hook_turn nreturns key entry stack) (λ n used called.
        let popped = drop 2 used in
        if is_ready key popped
        then and_then (hook_loop n rest (drop 1 popped))
            (λ m left more. ran m left (called ++ more))
        else undefined)

  -- The arguments are below the table; the results stay above.
  unfoldable pub hook_from : Option Callbacks → List Slot → Ran
  unfolding hook_loop
  hook_from none stack = ran 0 (drop (length args) stack) []
  hook_from (some entries) stack =
      and_then (hook_loop 0 entries (callbacks ∷ stack))
        (λ n left called. ran n (take n left ++ drop (length args) (drop n left)) called)

-- A client that is not in the registry only loses its arguments. 0 is the name of OnError.
unfoldable pub hook_call :
    (ℕ → List ℕ → Returned) → Hooks → Bool → Bool → List ℕ → ℕ → List Slot → Ran
unfolding find hook_from after_pcall after_call
hook_call call hooks referenced multret args hook stack =
    if not referenced
    then ran 0 (drop (length args) stack) []
    else hook_from call
        (after_pcall multret (λ error below.
          hook_from call after_call (error ∷ []) (find 0 hooks) (value error ∷ below)))
        args (find hook hooks) stack

pub mumble_hook_call : (ℕ → List ℕ → Returned) → Hooks → Bool → List ℕ → ℕ → List Slot → Ran
unfolding hook_call
mumble_hook_call call hooks referenced args hook stack =
    hook_call call hooks referenced false args hook stack

pub client_call : (ℕ → List ℕ → Returned) → Hooks → Bool → List ℕ → ℕ → List Slot → Ran
unfolding hook_call
client_call call hooks referenced args hook stack =
    hook_call call hooks referenced true args hook stack
