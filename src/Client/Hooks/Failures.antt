-- ===== src/Client/Hooks/Failures.antt =====
-- mumble/mumble.c, `mumble_hook_call_ret`: functions that fail, and results that are kept.
use lua_mumble.Base.{
  ℕ, suc, List, [], ◌∷◌, ◌++◌, some, Bool, true, false, ◌||◌, ◌==◌, length, ◌≡◌, refl, arith, All,
  lt→ltb,
}
use lua_mumble.Client.Hooks.{
  Slot, value, text, function, callbacks, traceback, Returned, fails, callback, Callbacks, Hooks,
  find, or_empty, Ran, ran, undefined, and_then, after_pcall, after_call, hook_from, hook_call,
  mumble_hook_call, lua_remove,
}
use lua_mumble.Client.Hooks.Balance.{
  callees, Returns, on_error, loop_undefined, from_lem, after_call-IsQuiet, after_pcall-IsQuiet,
}

or_true : (b : Bool) → (b || true) ≡ true
or_true true = refl
or_true false = refl

lua_remove_above :
    (stack : List Slot) (k : List Slot → Ran) → lua_remove (suc (length stack)) stack k ≡ undefined
unfolding lua_remove
lua_remove_above stack k =
    rw (lt→ltb (length stack) (suc (length stack)) (omega arith), or_true (suc (length stack) == 0))
      refl

error_lem :
    (call : ℕ → List ℕ → Returned) (hooks : Hooks) (args : List ℕ) (n f error : ℕ)
    (stack : List Slot) (k : ℕ → List Slot → List ℕ → Ran)
    → call f args ≡ fails error
    → All (Returns call (error ∷ [])) (callees (or_empty (find 0 hooks)))
    → and_then (after_pcall false (on_error call hooks) n f (call f args) stack) k ≡ undefined
unfolding after_pcall and_then
error_lem call hooks args n f error stack k failing handled =
    rw
      (
        failing,
        from_lem call (error ∷ []) after_call (after_call-IsQuiet call (error ∷ [])) (find 0 hooks)
            (value error ∷ []) (traceback ∷ stack) refl handled,
        lua_remove_above stack (λ left. ran n left (f ∷ callees (or_empty (find 0 hooks)))),
      )
      refl

-- Where a function of the hook raises an error and the functions of OnError return, the error and the
-- traceback are popped and then a place above the top is removed, which Lua does not define.
pub mumble_hook_call_error :
    (call : ℕ → List ℕ → Returned) (hooks : Hooks) (args : List ℕ) (hook : ℕ) (stack : List Slot)
    (before rest : Callbacks) (key f error : ℕ)
    → find hook hooks ≡ some (before ++ (key, callback f) ∷ rest)
    → All (Returns call args) (callees before)
    → call f args ≡ fails error
    → All (Returns call (error ∷ [])) (callees (or_empty (find 0 hooks)))
    → mumble_hook_call call hooks true args hook stack ≡ undefined
unfolding mumble_hook_call hook_call hook_from and_then
mumble_hook_call_error call hooks args hook stack before rest key f error there returns failing
      handled =
    rw
      (
        there,
        loop_undefined call args (after_pcall false (on_error call hooks))
            (after_pcall-IsQuiet (on_error call hooks) call args) before rest key f 0 stack returns
            (λ n.
              error_lem call hooks args n f error
                (text key ∷ function f ∷ text key ∷ callbacks ∷ stack) _ failing handled),
      )
      refl
