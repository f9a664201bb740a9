-- ===== src/Registry.antt =====
-- A table of the Lua registry as `mumble_registry_unref` leaves it, as its references; `none` is LUA_NOREF.
use lua_mumble.Base.{ℕ, List, [], ◌∷◌, Option, none, some, ◌==◌, if◌then◌else◌}

unfoldable pub remove_ref : ℕ → List ℕ → List ℕ
remove_ref r [] = []
remove_ref r (x ∷ xs) = if x == r then xs else x ∷ remove_ref r xs

unfoldable pub unref : Option ℕ → List ℕ → List ℕ
unfolding remove_ref
unref none refs = refs
unref (some r) refs = remove_ref r refs
