-- ===== src/Client/Methods/User.antt =====
-- mumble/user.c: the methods of a user, but those that record its voice.
use lua_mumble.Base.{
  ℕ, ◌∷◌, List, [], Option, none, some, Bool, true, false, if◌then◌else◌, ◌==◌, ltb,
}
use lua_mumble.Links.{LinkNode}
use lua_mumble.Client.Users.{MumbleUser, MumbleChannel, Known}
use lua_mumble.Client.Events.{
  at, lua_boolean, lua_string, lua_table, Fields, done, set_field, lua_pushinteger, given,
  mumble_channel_raw_get,
}
use lua_mumble.Client.Handlers.Users.{UserState}
use lua_mumble.Client.Methods.{
  text_message, user_remove, user_state, user_stats, plugin_data, texture_blob, comment_blob,
  user_action, Result, sends, pushes, raises, Argument, missing, nil_argument, string_argument,
  other_argument, user_state_init, with_malloc, Given, given_ids, with_ids, kept_hex,
}

module _ (user : MumbleUser) where
  pub user_message : List ℕ → Bool → Result
  unfolding with_malloc
  user_message message allocated = with_malloc allocated (
      text_message (record {
        actor = none;
        message = some message;
        session = user.session ∷ [];
        channel_id = [];
      }))

  remove_with : Argument → Option Bool → Result
  remove_with missing ban = raises
  remove_with nil_argument ban =
      sends
        (user_remove (record { session = user.session; actor = none; reason = none; ban = ban }))
  remove_with (string_argument reason) ban = sends (
      user_remove
        (record { session = user.session; actor = none; reason = some reason; ban = ban }))
  remove_with other_argument ban = raises

  -- A reason that is not there is no nil, and is refused.
  pub user_kick : Argument → Result
  unfolding remove_with
  user_kick reason = remove_with reason none

  pub user_ban : Argument → Result
  unfolding remove_with
  user_ban reason = remove_with reason (some true)

  -- A state of this user.
  abbrev own : UserState
  own = record user_state_init { session = some user.session }

  unfoldable pub user_move : MumbleChannel → Result
  user_move channel = sends (user_state (record own { channel_id = some channel.channel_id }))

  pub user_set_muted : Bool → Result
  user_set_muted mute = sends (user_state (record own { mute = some mute }))

  pub user_set_deaf : Bool → Result
  user_set_deaf deaf = sends (user_state (record own { mute = some deaf; deaf = some deaf }))

  pub user_register : Result
  user_register = sends (user_state (record own { user_id = some 0 }))

  -- `stats_only` has no flag set, so that it is not sent.
  pub user_request_stats : Bool → Result
  user_request_stats stats_only = sends (user_stats user.session)

  pub user_set_texture : List ℕ → Result
  user_set_texture texture = sends (user_state (record own { texture = some texture }))

  unfoldable pub user_listen : Bool → Given → Result
  unfolding with_ids given_ids
  user_listen allocated channels =
      with_ids allocated (given_ids channels)
        (λ ids. user_state (record own { listening_channel_add = ids }))

  unfoldable pub user_unlisten : Bool → Given → Result
  unfolding with_ids given_ids
  user_unlisten allocated channels =
      with_ids allocated (given_ids channels)
        (λ ids. user_state (record own { listening_channel_remove = ids }))

  pub user_send_plugin_data : ℕ → List ℕ → List ℕ → Bool → Result
  unfolding with_malloc
  user_send_plugin_data own_session dataid data_of allocated = with_malloc allocated (
      plugin_data (record {
        sendersession = some own_session;
        receiversessions = user.session ∷ [];
        data_of = some data_of;
        dataid = some dataid;
      }))

  pub user_request_texture_blob : Bool → Result
  unfolding with_malloc
  user_request_texture_blob allocated = with_malloc allocated (texture_blob (user.session ∷ []))

  pub user_request_comment_blob : Bool → Result
  unfolding with_malloc
  user_request_comment_blob allocated = with_malloc allocated (comment_blob (user.session ∷ []))

  pub user_context_action : List ℕ → Result
  user_context_action action = sends (user_action user.session action)

  pub user_get_session : Result
  user_get_session = pushes (lua_pushinteger user.session)

  pub user_get_name : Result
  user_get_name = pushes (given lua_string user.name)

  pub user_get_channel : Known MumbleChannel → Result
  user_get_channel channels = pushes (mumble_channel_raw_get channels user.channel_id)

  pub user_get_id : Result
  user_get_id = pushes (lua_pushinteger user.user_id)

  pub user_is_registered : Result
  user_is_registered = pushes (lua_boolean (ltb 0 user.user_id))

  pub user_is_mute : Result
  user_is_mute = pushes (lua_boolean user.mute)

  pub user_is_deaf : Result
  user_is_deaf = pushes (lua_boolean user.deaf)

  pub user_is_self_mute : Result
  user_is_self_mute = pushes (lua_boolean user.self_mute)

  pub user_is_self_deaf : Result
  user_is_self_deaf = pushes (lua_boolean user.self_deaf)

  pub user_is_suppressed : Result
  user_is_suppressed = pushes (lua_boolean user.suppress)

  pub user_get_comment : Result
  user_get_comment = pushes (given lua_string user.comment)

  pub user_get_comment_hash : Result
  unfolding kept_hex
  user_get_comment_hash = kept_hex user.comment_hash (some user.comment_hash_len)

  pub user_is_speaking : Result
  user_is_speaking = pushes (lua_boolean user.speaking)

  pub user_is_recording : Result
  user_is_recording = pushes (lua_boolean user.recording)

  pub user_is_priority_speaker : Result
  user_is_priority_speaker = pushes (lua_boolean user.priority_speaker)

  pub user_get_texture : Result
  user_get_texture = pushes (given lua_string user.texture)

  pub user_get_texture_hash : Result
  unfolding kept_hex
  user_get_texture_hash = kept_hex user.texture_hash (some user.texture_hash_len)

  pub user_get_hash : Result
  user_get_hash = pushes (given lua_string user.hash)

unfoldable pub is_listed : ℕ → List (LinkNode (Unit {0})) → Bool
is_listed id [] = false
is_listed id (node ∷ next) =
    let later = is_listed id next in if node.index == id then true else later

unfoldable pub user_is_listening : MumbleUser → MumbleChannel → Result
unfolding is_listed
user_is_listening user channel = pushes (lua_boolean (is_listed channel.channel_id user.listens))

-- The channels of a list of links, each at its own number.
unfoldable pub linked_fields : Known MumbleChannel → List (LinkNode (Unit {0})) → Fields
linked_fields channels [] = done
linked_fields channels (node ∷ next) =
    set_field (at node.index) (mumble_channel_raw_get channels node.index)
      (linked_fields channels next)

pub user_get_listens : Known MumbleChannel → MumbleUser → Result
unfolding linked_fields
user_get_listens channels user = pushes (lua_table (linked_fields channels user.listens))
