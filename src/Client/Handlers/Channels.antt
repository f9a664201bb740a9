-- ===== src/Client/Handlers/Channels.antt =====
-- mumble/packet.c: `packet_channel_remove` and `packet_channel_state`.
pub mod Laws
pub mod Linked
use lua_mumble.Base.{
  ℕ, ◌∷◌, List, [], Option, none, some, Bool, true, false, if◌then◌else◌, ℤ, ◌>>=◌, String, length,
}
use lua_mumble.Links.{LinkNode, list_add, list_remove, list_clear}
use lua_mumble.Client.Users.{MumbleChannel, mumble_channel_remove}
use lua_mumble.Client.Events.{
  Value, lua_boolean, lua_integer, lua_string, Call, event, lua_pushinteger, given, some_array,
  mumble_channel_raw_get,
}
use lua_mumble.Client.Session.{MumbleClient, Outcome, channel_get, change_channel, needs}
use lua_mumble.Client.Handlers.{or_kept, or_kept_some, copy_of, length_of, push_copy, push_hex}

unfoldable pub add_all : List ℕ → List (LinkNode (Unit {0})) → List (LinkNode (Unit {0}))
add_all [] links = links
add_all (id ∷ rest) links = add_all rest (list_add links id tt)

unfoldable pub remove_all : List ℕ → List (LinkNode (Unit {0})) → List (LinkNode (Unit {0}))
remove_all [] links = links
remove_all (id ∷ rest) links = remove_all rest (list_remove links id)

-- A list of links that is not empty takes the place of the old one.
unfoldable pub replace_all : List ℕ → List (LinkNode (Unit {0})) → List (LinkNode (Unit {0}))
unfolding add_all
replace_all [] links = links
replace_all (id ∷ rest) links = add_all (id ∷ rest) (list_clear links)

pub packet_channel_remove : ℕ → MumbleClient → Outcome
packet_channel_remove channel_id client = some (
  record client { channels = mumble_channel_remove client.channels channel_id },
  record { hook = "OnChannelRemove"; argument = mumble_channel_raw_get client.channels channel_id }
      ∷ [],
)

pub record ChannelState : Type 0 where
  pub channel_id : Option ℕ
  pub parent : Option ℕ
  pub name : Option (List ℕ)
  pub description : Option (List ℕ)
  pub temporary : Option Bool
  pub position : Option ℤ
  pub description_hash : Option (List ℕ)
  pub max_users : Option ℕ
  pub links_add : List ℕ
  pub links_remove : List ℕ
  pub links : List ℕ
  pub is_enter_restricted : Option Bool
  pub can_enter : Option Bool

-- What the message sets in its channel. The hash's length is set with the hash.
unfoldable pub changed_channel : ChannelState → MumbleChannel → MumbleChannel
unfolding or_kept or_kept_some copy_of add_all remove_all replace_all
changed_channel state channel = record channel {
  parent = or_kept state.parent channel.parent;
  name = or_kept_some state.name channel.name;
  description = or_kept_some state.description channel.description;
  temporary = or_kept state.temporary channel.temporary;
  position = or_kept state.position channel.position;
  description_hash = copy_of state.description_hash channel.description_hash;
  description_hash_len = elim state.description_hash [
    | none ↦ channel.description_hash_len
    | some bytes ↦ some (length bytes)
  ];
  max_users = or_kept state.max_users channel.max_users;
  links =
      replace_all state.links
        (remove_all state.links_remove (add_all state.links_add channel.links));
  is_enter_restricted = or_kept state.is_enter_restricted channel.is_enter_restricted;
  can_enter = or_kept_some state.can_enter channel.can_enter;
}

channel_event : ChannelState → ℕ → Value → MumbleClient → Value
channel_event state channel_id hash client =
    let get = mumble_channel_raw_get client.channels in
    event (
      ("channel", get channel_id)
      ∷ ("channel_id", lua_pushinteger channel_id)
      ∷ ("parent", given get state.parent)
      ∷ ("name", given lua_string state.name)
      ∷ ("description", given lua_string state.description)
      ∷ ("temporary", given lua_boolean state.temporary)
      ∷ ("position", given lua_integer state.position)
      ∷ ("description_hash", hash)
      ∷ ("max_users", given lua_pushinteger state.max_users)
      ∷ ("links_add", some_array get state.links_add)
      ∷ ("links_remove", some_array get state.links_remove)
      ∷ ("links", some_array get state.links)
      ∷ ("is_enter_restricted", given lua_boolean state.is_enter_restricted)
      ∷ ("can_enter", given lua_boolean state.can_enter)
      ∷ [])

module _ (new_ref : ℕ → ℕ) where
  -- A message for the channel of a number.
  unfoldable pub channel_state : ChannelState → ℕ → MumbleClient → Outcome
  unfolding channel_event push_copy push_hex
  channel_state state channel_id client =
      let known = (channel_get new_ref channel_id client).0 in
      push_copy push_hex state.description_hash >>= λ hash. some (
        change_channel channel_id (changed_channel state) known,
        record { hook = "OnChannelState"; argument = channel_event state channel_id hash known }
            ∷ [],
      )

  -- A message without a channel does nothing.
  unfoldable pub packet_channel_state : ChannelState → MumbleClient → Outcome
  unfolding channel_state
  packet_channel_state state = needs state.channel_id (channel_state state)
