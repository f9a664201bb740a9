-- ===== src/Client/Methods/Target.antt =====
-- mumble/target.c: the target of a voice packet, which a script puts together. The texts that a target
-- points to are the script's own; `realloc` is a flag.
use lua_mumble.Base.{ℕ, ◌∷◌, ◌++◌, List, [], Option, none, some, Bool, true, false}
use lua_mumble.Client.Users.{MumbleUser, MumbleChannel}
use lua_mumble.Client.Events.{lua_boolean, lua_string, lua_table, done, lua_pushinteger, given}
use lua_mumble.Client.Methods.{Result, pushes, raises}

-- A channel, `links` and `children` that were never set have their defaults, 0 and false.
pub record Target : Type 0 where
  pub session : List ℕ
  pub channel_id : Option ℕ
  pub group : Option (List ℕ)
  pub links : Option Bool
  pub children : Option Bool

pub mumble_target_new : Target
mumble_target_new = record {
  session = [];
  channel_id = none;
  group = none;
  links = none;
  children = none;
}

-- Nothing is changed where the error is raised.
unfoldable pub target_add_user : MumbleUser → Bool → Target → Option Target
target_add_user user true target =
    some (record target { session = target.session ++ user.session ∷ [] })
target_add_user user false target = none

-- `lua_settable(l, -2)` takes the key, a number, for the table: it raises an error.
sessions_table : List ℕ → Result
sessions_table [] = pushes (lua_table done)
sessions_table (session ∷ rest) = raises

pub target_get_users : Target → Result
unfolding sessions_table
target_get_users target = sessions_table target.session

pub target_set_channel : MumbleChannel → Target → Target
target_set_channel channel target = record target { channel_id = some channel.channel_id }

default_of : {A : Type 0} → A → Option A → A
default_of a none = a
default_of a (some b) = b

pub target_get_channel : Target → Result
unfolding default_of
target_get_channel target = pushes (lua_pushinteger (default_of 0 target.channel_id))

pub target_set_group : List ℕ → Target → Target
target_set_group group target = record target { group = some group }

pub target_get_group : Target → Result
target_get_group target = pushes (given lua_string target.group)

pub target_set_links : Bool → Target → Target
target_set_links links target = record target { links = some links }

pub target_get_links : Target → Result
unfolding default_of
target_get_links target = pushes (lua_boolean (default_of false target.links))

pub target_set_children : Bool → Target → Target
target_set_children children target = record target { children = some children }

pub target_get_children : Target → Result
unfolding default_of
target_get_children target = pushes (lua_boolean (default_of false target.children))
