-- ===== src/Client/Events/Laws.antt =====
-- mumble/packet.c: what the tables of the hooks hold at a key.
use lua_mumble.Base.{
  ℕ, get_elem?, zero, suc, ◌+◌, ◌<◌, List, [], ◌∷◌, some, true, ◌==◌, if◌then◌else◌, ◌≡◌, refl, ap,
  ◌∙◌, arith,
}
use lua_mumble.Client.Users.{Known, MumbleUser}
use lua_mumble.Client.Events.{
  mumble_user_raw_get, lua_user, Key, at, Value, lua_nil, lua_boolean, lua_integer, lua_number,
  lua_string, lua_user, lua_channel, lua_table, Fields, lua_gettable, set_field, is_nil, same_key,
  value_at, given, array, items_from,
}

nil_eq : (v : Value) → is_nil v ≡ true → v ≡ lua_nil
unfolding is_nil
nil_eq lua_nil e = refl
nil_eq (lua_boolean b) e = ground (arith, e)
nil_eq (lua_integer i) e = ground (arith, e)
nil_eq (lua_number d) e = ground (arith, e)
nil_eq (lua_string s) e = ground (arith, e)
nil_eq (lua_user session) e = ground (arith, e)
nil_eq (lua_channel channel_id) e = ground (arith, e)
nil_eq (lua_table t) e = ground (arith, e)

-- What a table holds after an assignment before the others.
pub lua_gettable-set_field :
    (j k : Key) (v : Value) (rest : Fields)
    → lua_gettable (set_field j v rest) k ≡ (
        if is_nil (lua_gettable rest k)
        then (if same_key j k then v else lua_nil)
        else lua_gettable rest k)
unfolding set_field lua_gettable
lua_gettable-set_field j k v rest = ground (arith, nil_eq v, nil_eq (lua_gettable rest k))

-- What one assignment to an index adds to what is there later.
gettable-at :
    (j k : ℕ) (v later : Value) (rest : Fields)
    → lua_gettable rest (at k) ≡ later
    → lua_gettable (set_field (at j) v rest) (at k)
      ≡ (if is_nil later then (if j == k then v else lua_nil) else later)
unfolding same_key
gettable-at j k v later rest e =
    lua_gettable-set_field (at j) (at k) v rest
    ∙ ap (λ l. if is_nil l then (if j == k then v else lua_nil) else l) e

module _ {A : Type 0} (push : A → Value) where
  below :
      (items : List A) (j k : ℕ) → k < j → lua_gettable (items_from push j items) (at k) ≡ lua_nil
  unfolding items_from lua_gettable is_nil
  below [] j k h = refl
  below (a ∷ rest) j k h =
      gettable-at j k (push a) lua_nil (items_from push (suc j) rest)
        (below rest (suc j) k (omega (arith, h)))
      ∙ ground (arith, h)

  from :
      (items : List A) (j i k : ℕ)
      → k ≡ j + i
      → lua_gettable (items_from push j items) (at k) ≡ given push (get_elem? items i)
  unfolding items_from lua_gettable given is_nil
  from [] j i k h = refl
  from (a ∷ rest) j zero k h =
      gettable-at j k (push a) lua_nil (items_from push (suc j) rest)
        (below rest (suc j) k (omega (arith, h)))
      ∙ ground (arith, h)
  from (a ∷ rest) j (suc i) k h =
      gettable-at j k (push a) (given push (get_elem? rest i)) (items_from push (suc j) rest)
        (from rest (suc j) i k (omega (arith, h)))
      ∙ ground (arith, h, nil_eq (given push (get_elem? rest i)))

  -- The array of a repeated field has its elements from 1 on, and nothing else.
  pub array_lem :
      (items : List A) (i : ℕ)
      → value_at (array push items) (at (suc i)) ≡ given push (get_elem? items i)
  unfolding value_at array
  array_lem items i = from items 1 i (suc i) (omega arith)

pub mumble_user_raw_get-some :
    (users : Known MumbleUser) (session : ℕ) (user : MumbleUser)
    → users.table session ≡ some user
    → mumble_user_raw_get users session ≡ lua_user session
unfolding mumble_user_raw_get
mumble_user_raw_get-some users session user e = rw (e, mumble_user_raw_get) refl
