-- ===== src/Client/Methods.antt =====
-- mumble/user.c, mumble/channel.c and mumble/client.c: the methods of users, channels and clients in Lua. A method pushes a value,
-- sends a message, raises an error or runs into undefined behaviour. Arguments that are checked by the
-- Lua library come as what the checks give; the log and the result of a send are left out.
pub mod User
pub mod Channel
pub mod Ids
pub mod Members
pub mod Target
pub mod Path
pub mod BanEntry
pub mod Client
use lua_mumble.Base.{
  ℕ, zero, suc, ◌∷◌, ◌++◌, List, [], Option, none, some, Bool, true, false, if◌then◌else◌, ◌==◌,
  ◌>>=◌, load,
}
use lua_mumble.Client.Events.{Value, lua_nil, lua_boolean}
use lua_mumble.Client.Reports.{TextMessage, PluginData}
use lua_mumble.Client.Reports.Stats.{Version}
use lua_mumble.Client.Handlers.{PermissionQuery, push_hex}
use lua_mumble.Client.Handlers.Channels.{ChannelState}
use lua_mumble.Client.Handlers.Users.{UserState, UserRemove}

-- `opus` and the type of the client, which are the same for every client, are left out.
pub record Authenticate : Type 0 where
  pub username : Option (List ℕ)
  pub password : Option (List ℕ)
  pub tokens : List (Option (List ℕ))

-- The messages, as protobuf-c packs them: a field without its `has_` flag is not sent. A request of
-- blobs has the sessions and channels that it names, a context action its target, and a voice target its
-- number with the addresses of the targets.
pub data Sent : Type 0 where
  text_message : TextMessage → Sent
  user_remove : UserRemove → Sent
  user_state : UserState → Sent
  user_stats : ℕ → Sent
  channel_state : ChannelState → Sent
  channel_remove : ℕ → Sent
  acl_query : ℕ → Sent
  permission_query : PermissionQuery → Sent
  plugin_data : PluginData → Sent
  texture_blob : List ℕ → Sent
  comment_blob : List ℕ → Sent
  description_blob : List ℕ → Sent
  user_action : ℕ → List ℕ → Sent
  channel_action : ℕ → List ℕ → Sent
  version : Version → Sent
  authenticate : Authenticate → Sent
  ban_query : Sent
  user_list_query : Sent
  voice_target : ℕ → List ℕ → Sent

pub data Result : Type 0 where
  sends : Sent → Result
  pushes : Value → Result
  raises : Result
  undefined : Result

-- An argument that a method looks at itself: not there, nil, a string, or anything else.
pub data Argument : Type 0 where
  missing : Argument
  nil_argument : Argument
  string_argument : List ℕ → Argument
  other_argument : Argument

-- MUMBLE_PROTO__USER_STATE__INIT.
abbrev pub user_state_init : UserState
user_state_init = record {
  session = none;
  actor = none;
  name = none;
  user_id = none;
  channel_id = none;
  mute = none;
  deaf = none;
  suppress = none;
  self_mute = none;
  self_deaf = none;
  texture = none;
  comment = none;
  hash = none;
  comment_hash = none;
  texture_hash = none;
  priority_speaker = none;
  recording = none;
  listening_channel_add = [];
  listening_channel_remove = [];
  listening_volume_adjustment = [];
}

-- MUMBLE_PROTO__CHANNEL_STATE__INIT.
abbrev pub channel_state_init : ChannelState
channel_state_init = record {
  channel_id = none;
  parent = none;
  name = none;
  description = none;
  temporary = none;
  position = none;
  description_hash = none;
  max_users = none;
  links_add = [];
  links_remove = [];
  links = [];
  is_enter_restricted = none;
  can_enter = none;
}

-- A single element is allocated for the message.
unfoldable pub with_malloc : Bool → Sent → Result
with_malloc true message = sends message
with_malloc false message = raises

-- Channels that a method is given: the numbers, an error of their types, or undefined behaviour.
pub data GivenIds : Type 0 where
  ids : List ℕ → GivenIds
  type_error : GivenIds
  bad_access : GivenIds

prepend : ℕ → GivenIds → GivenIds
prepend id (ids rest) = ids (id ∷ rest)
prepend id type_error = type_error
prepend id bad_access = bad_access

-- The values of a table in the order of `lua_next`, where `n` is its length and the size of the array. An
-- entry that is no channel is `none`. Entries beyond the array, and cells that no entry fills, are bad
-- accesses.
unfoldable pub table_ids : ℕ → List (Option ℕ) → GivenIds
unfolding prepend
table_ids zero [] = ids []
table_ids (suc n) [] = bad_access
table_ids zero (none ∷ rest) = type_error
table_ids (suc n) (none ∷ rest) = type_error
table_ids zero (some id ∷ rest) = bad_access
table_ids (suc n) (some id ∷ rest) = prepend id (table_ids n rest)

-- The last argument: `lua_touserdata(l, -1)`.
unfoldable pub last_argument : List (Option ℕ) → Option ℕ
last_argument [] = none
last_argument (a ∷ []) = a
last_argument (a ∷ b ∷ rest) = last_argument (b ∷ rest)

-- Every argument is checked, but the number is always that of the last one.
unfoldable pub vararg_loop : Option ℕ → List (Option ℕ) → GivenIds
unfolding prepend
vararg_loop last [] = ids []
vararg_loop last (none ∷ rest) = type_error
vararg_loop none (some id ∷ rest) = bad_access
vararg_loop (some last) (some id ∷ rest) = prepend last (vararg_loop (some last) rest)

-- Either a table with its length, or arguments.
pub data Given : Type 0 where
  in_table : ℕ → List (Option ℕ) → Given
  arguments : List (Option ℕ) → Given

unfoldable pub given_ids : Given → GivenIds
unfolding table_ids last_argument vararg_loop
given_ids (in_table n values) = table_ids n values
given_ids (arguments values) = vararg_loop (last_argument values) values

-- A message with the channels, where the array is allocated.
unfoldable pub with_ids : Bool → GivenIds → (List ℕ → Sent) → Result
with_ids true (ids list) message = sends (message list)
with_ids true type_error message = raises
with_ids true bad_access message = undefined
with_ids false given message = raises

-- The hexadecimal string of a kept hash, which is read by its length.
unfoldable pub kept_hex : Option (List ℕ) → Option ℕ → Result
kept_hex hash none = undefined
kept_hex none (some zero) = pushes (push_hex [])
kept_hex none (some (suc n)) = undefined
kept_hex (some text) (some n) = elim (load (text ++ 0 ∷ []) 0 n) [
  | none ↦ undefined
  | some bytes ↦ pushes (push_hex bytes)
]
