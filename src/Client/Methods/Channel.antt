-- ===== src/Client/Methods/Channel.antt =====
-- mumble/channel.c: the methods of a channel.
use lua_mumble.Base.{
  ℕ, ◌∷◌, List, [], Option, none, some, Bool, not, ◌&&◌, if◌then◌else◌, ◌==◌, bit_and,
}
use lua_mumble.Links.{LinkNode}
use lua_mumble.Client.Users.{MumbleUser, MumbleChannel, Known}
use lua_mumble.Client.Events.{
  lua_nil, lua_boolean, lua_string, lua_integer, lua_number, lua_table, bits, lua_pushinteger,
  given, array, mumble_user_raw_get, mumble_channel_raw_get,
}
use lua_mumble.Client.Handlers.Channels.{ChannelState}
use lua_mumble.Client.Methods.{
  text_message, channel_state, channel_remove as remove_message, acl_query, permission_query,
  description_blob, channel_action, Result, sends, pushes, undefined, channel_state_init,
  with_malloc, Given, given_ids, with_ids, kept_hex,
}
use lua_mumble.Client.Methods.User.{linked_fields}

-- The children of a channel, in the order of the list; the root is its own parent.
unfoldable pub children_of : ℕ → List (LinkNode MumbleChannel) → List ℕ
children_of id [] = []
children_of id (node ∷ next) =
    let rest = children_of id next in
    if not (node.data_of.channel_id == node.data_of.parent) && node.data_of.parent == id
    then node.index ∷ rest
    else rest

-- The users in a channel, in the order of the list.
unfoldable pub users_in : ℕ → List (LinkNode MumbleUser) → List ℕ
users_in id [] = []
users_in id (node ∷ next) =
    let rest = users_in id next in if node.data_of.channel_id == id then node.index ∷ rest else rest

module _ (channel : MumbleChannel) where
  pub channel_message : List ℕ → Bool → Result
  unfolding with_malloc
  channel_message message allocated = with_malloc allocated (
      text_message (record {
        actor = none;
        message = some message;
        session = [];
        channel_id = channel.channel_id ∷ [];
      }))

  -- A state of this channel.
  abbrev own : ChannelState
  own = record channel_state_init { channel_id = some channel.channel_id }

  pub channel_set_description : Option (List ℕ) → Result
  channel_set_description description =
      sends (channel_state (record own { description = description }))

  pub channel_remove : Result
  channel_remove = sends (remove_message channel.channel_id)

  pub channel_get_name : Result
  channel_get_name = pushes (given lua_string channel.name)

  pub channel_get_id : Result
  channel_get_id = pushes (lua_pushinteger channel.channel_id)

  pub channel_get_parent : Known MumbleChannel → Result
  channel_get_parent channels = pushes (
      if channel.channel_id == channel.parent
      then lua_nil
      else mumble_channel_raw_get channels channel.parent)

  unfoldable pub channel_get_children : Known MumbleChannel → Result
  unfolding children_of
  channel_get_children channels =
      pushes
        (array (mumble_channel_raw_get channels) (children_of channel.channel_id channels.list))

  unfoldable pub channel_get_users : Known MumbleUser → Result
  unfolding users_in
  channel_get_users users =
      pushes (array (mumble_user_raw_get users) (users_in channel.channel_id users.list))

  pub channel_get_description : Result
  channel_get_description = pushes (given lua_string channel.description)

  pub channel_get_description_hash : Result
  unfolding kept_hex
  channel_get_description_hash = kept_hex channel.description_hash channel.description_hash_len

  pub channel_is_temporary : Result
  channel_is_temporary = pushes (lua_boolean channel.temporary)

  pub channel_get_position : Result
  channel_get_position = pushes (lua_integer channel.position)

  pub channel_get_max_users : Result
  channel_get_max_users = pushes (lua_pushinteger channel.max_users)

  unfoldable pub channel_link : Bool → Given → Result
  unfolding with_ids given_ids
  channel_link allocated channels =
      with_ids allocated (given_ids channels)
        (λ ids. channel_state (record own { links_add = ids }))

  unfoldable pub channel_unlink : Bool → Given → Result
  unfolding with_ids given_ids
  channel_unlink allocated channels =
      with_ids allocated (given_ids channels)
        (λ ids. channel_state (record own { links_remove = ids }))

  pub channel_get_links : Known MumbleChannel → Result
  unfolding linked_fields
  channel_get_links channels = pushes (lua_table (linked_fields channels channel.links))

  pub channel_is_enter_restricted : Result
  channel_is_enter_restricted = pushes (lua_boolean channel.is_enter_restricted)

  -- A field that was never set holds any value.
  pub channel_can_enter : Result
  channel_can_enter = elim channel.can_enter [ none ↦ undefined | some b ↦ pushes (lua_boolean b) ]

  pub channel_request_acl : Result
  channel_request_acl = sends (acl_query channel.channel_id)

  pub channel_request_permissions : Result
  channel_request_permissions = sends (
      permission_query
        (record { channel_id = some channel.channel_id; permissions = none; flush = none }))

  pub channel_get_permissions : Result
  channel_get_permissions = pushes (lua_pushinteger channel.permissions)

  pub channel_has_permission : ℕ → Result
  channel_has_permission mask = pushes (lua_boolean (not (bit_and channel.permissions mask == 0)))

  pub channel_get_listening_volume_adjustment : Result
  channel_get_listening_volume_adjustment = elim channel.listening_volume_adjustment [
    | none ↦ undefined
    | some volume ↦ pushes (lua_number (bits volume))
  ]

  pub channel_request_description_blob : Bool → Result
  unfolding with_malloc
  channel_request_description_blob allocated =
      with_malloc allocated (description_blob (channel.channel_id ∷ []))

  -- Only the name and the description have no flag that would have to be set; the parent, which is this
  -- channel, the position, `temporary` and the limit on users are not sent.
  pub channel_create : List ℕ → List ℕ → Result
  channel_create name description = sends (
      channel_state
        (record channel_state_init { name = some name; description = some description }))

  pub channel_context_action : List ℕ → Result
  channel_context_action action = sends (channel_action channel.channel_id action)
