-- ===== src/Client/Events.antt =====
-- mumble/packet.c and mumble/mumble.c: the Lua values that the handlers of the server's messages give to
-- the hooks. A table is the assignments made to it, in their order; a double is the integer that it
-- stands for or its bits; a user or channel is the object that the client keeps for the number.
pub mod Laws
use lua_mumble.Base.{
  ℕ, suc, ◌∷◌, List, [], Option, none, some, Bool, true, false, if◌then◌else◌, ◌==◌, ℤ, pos, String,
}
use text.Mathlib.Text.{◌==◌ as str_eq}
use lua_mumble.Client.Users.{Known, MumbleUser, MumbleChannel}

pub data Key : Type 0 where
  key : String → Key
  at : ℕ → Key

pub data Double : Type 0 where
  whole : ℕ → Double
  bits : ℕ → Double

mutual
  pub data Value : Type 0 where
    lua_nil : Value
    lua_boolean : Bool → Value
    lua_integer : ℤ → Value
    lua_number : Double → Value
    lua_string : List ℕ → Value
    lua_user : ℕ → Value
    lua_channel : ℕ → Value
    lua_table : Fields → Value

  pub data Fields : Type 0 where
    done : Fields
    field : Key → Value → Fields → Fields

-- The hook and its argument.
pub record Call : Type 0 where
  pub hook : String
  pub argument : Value

unfoldable pub same_key : Key → Key → Bool
same_key (key a) (key b) = str_eq a b
same_key (at i) (at j) = i == j
same_key (key a) (at j) = false
same_key (at i) (key b) = false

unfoldable pub is_nil : Value → Bool
is_nil lua_nil = true
is_nil (lua_boolean b) = false
is_nil (lua_integer i) = false
is_nil (lua_number d) = false
is_nil (lua_string s) = false
is_nil (lua_user session) = false
is_nil (lua_channel channel_id) = false
is_nil (lua_table t) = false

-- `lua_gettable`: of two assignments to a key the later one holds.
unfoldable pub lua_gettable : Fields → Key → Value
unfolding is_nil same_key
lua_gettable done k = lua_nil
lua_gettable (field j v rest) k =
    let later = lua_gettable rest k in
    if is_nil later then (if same_key j k then v else lua_nil) else later

-- The value of a table at a key.
unfoldable pub value_at : Value → Key → Value
unfolding lua_gettable
value_at (lua_table t) k = lua_gettable t k
value_at lua_nil k = lua_nil
value_at (lua_boolean b) k = lua_nil
value_at (lua_integer i) k = lua_nil
value_at (lua_number d) k = lua_nil
value_at (lua_string s) k = lua_nil
value_at (lua_user u) k = lua_nil
value_at (lua_channel c) k = lua_nil

-- An assignment of nil to a key that is not there does nothing.
unfoldable pub set_field : Key → Value → Fields → Fields
unfolding is_nil
set_field k v rest = if is_nil v then rest else field k v rest

unfoldable pub fields : List (String × Value) → Fields
unfolding set_field
fields [] = done
fields ((k, v) ∷ rest) = set_field (key k) v (fields rest)

unfoldable pub event : List (String × Value) → Value
unfolding fields
event assignments = lua_table (fields assignments)

unfoldable pub lua_pushinteger : ℕ → Value
lua_pushinteger n = lua_integer (pos n)

-- A field of a message that need not be there, or a string that may be NULL.
unfoldable pub given : {A : Type 0} → (A → Value) → Option A → Value
given push none = lua_nil
given push (some a) = push a

module _ {A : Type 0} (push : A → Value) where
  unfoldable pub items_from : ℕ → List A → Fields
  unfolding set_field
  items_from i [] = done
  items_from i (a ∷ rest) = set_field (at i) (push a) (items_from (suc i) rest)

  -- The array of a repeated field, from 1 on.
  unfoldable pub array : List A → Value
  unfolding items_from
  array items = lua_table (items_from 1 items)

  -- The same where it is only made for a count above 0.
  unfoldable pub some_array : List A → Value
  unfolding array
  some_array [] = lua_nil
  some_array (a ∷ rest) = array (a ∷ rest)

pub mumble_user_raw_get : Known MumbleUser → ℕ → Value
mumble_user_raw_get users session = elim (users.table session) [
  | none ↦ lua_nil
  | some user ↦ lua_user session
]

pub mumble_user_isnil : Known MumbleUser → ℕ → Bool
mumble_user_isnil users session = elim (users.table session) [ none ↦ true | some user ↦ false ]

pub mumble_channel_raw_get : Known MumbleChannel → ℕ → Value
mumble_channel_raw_get channels channel_id = elim (channels.table channel_id) [
  | none ↦ lua_nil
  | some channel ↦ lua_channel channel_id
]
