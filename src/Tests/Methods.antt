-- ===== src/Tests/Methods.antt =====
-- Methods of a user and a channel, and what the server's answers to them do.
use lua_mumble.Client.Methods.{plugin_data, voice_target, texture_blob, raises, arguments}
use lua_mumble.Client.Methods.Client.{
  client_send_plugin_data, client_register_voice_target, client_request_texture_blob,
}
use lua_mumble.Client.Methods.Client.Lists.{client_lists}
use lua_mumble.Base.{◌≤◌, [], ◌∷◌, some, none, true, ◌≡◌, refl}
use lua_mumble.Client.Users.{MumbleUser, MumbleChannel}
use lua_mumble.Client.Session.{MumbleClient, channel_get, needs}
use lua_mumble.Client.Handlers.{push_copy}
use lua_mumble.Client.Handlers.Users.{packet_user_state, user_state, copies_of}
use lua_mumble.Client.Handlers.Users.Effects.{user_before}
use lua_mumble.Client.Handlers.Channels.{packet_channel_state, ChannelState}
use lua_mumble.Client.Handlers.Channels.Linked.{times}
use lua_mumble.Client.Methods.{
  user_state as state_of_user, channel_state_init, sends, in_table, arguments, given_ids, ids,
  bad_access, type_error,
}
use lua_mumble.Client.Methods.Ids.{given_ids_lem}
use lua_mumble.Client.Methods.Members.{moved_to, user_move-users_in}
use lua_mumble.Client.Methods.User.{user_move}
use lua_mumble.Client.Methods.Channel.{users_in}
use lua_mumble.Tests.Sessions.{first_ref, new_client, new_client-IsSound, returned}

abbrev someone : MumbleUser
someone = user_before first_ref 5 new_client

abbrev somewhere : MumbleChannel
somewhere = (channel_get first_ref 2 new_client).1

abbrev after_move : MumbleClient
after_move = (returned (packet_user_state first_ref (moved_to someone somewhere) new_client)).0

user_move-users_in_example :
    (user_move someone somewhere ≡ sends (state_of_user (moved_to someone somewhere)))
    × (1 ≤ times someone.session (users_in somewhere.channel_id after_move.users.list))
unfolding packet_user_state needs user_state copies_of push_copy
user_move-users_in_example =
    user_move-users_in first_ref new_client after_move _ someone somewhere new_client-IsSound refl

abbrev links_state : ChannelState
links_state = record channel_state_init {
  channel_id = some somewhere.channel_id;
  links_add = 3 ∷ 4 ∷ [];
}

abbrev after_link : MumbleClient
after_link = (returned (packet_channel_state first_ref links_state new_client)).0

given_ids_lem_example :
    (given_ids (in_table 2 (some 3 ∷ some 4 ∷ [])) ≡ ids (3 ∷ 4 ∷ []))
    × (given_ids (arguments (some 3 ∷ some 4 ∷ some 9 ∷ [])) ≡ ids (9 ∷ 9 ∷ 9 ∷ []))
    × (given_ids (arguments (some 3 ∷ some 4 ∷ none ∷ some 5 ∷ some 9 ∷ [])) ≡ type_error)
    × (given_ids (arguments (none ∷ some 5 ∷ [])) ≡ type_error)
    × (given_ids (arguments (some 2 ∷ some 5 ∷ none ∷ [])) ≡ bad_access)
given_ids_lem_example = given_ids_lem (3 ∷ 4 ∷ []) 9 2 (some 5 ∷ [])

client_lists_example :
    let table = in_table 2 (some 3 ∷ some 4 ∷ []) in
    let each = arguments (some 3 ∷ some 4 ∷ []) in
    let wrong = arguments (some 3 ∷ some 4 ∷ none ∷ some 5 ∷ []) in
    (client_send_plugin_data new_client (65 ∷ []) (1 ∷ 2 ∷ []) table true
      ≡ sends (
          plugin_data (record {
            sendersession = some 7;
            receiversessions = 3 ∷ 4 ∷ [];
            data_of = some (1 ∷ 2 ∷ []);
            dataid = some (65 ∷ []);
          })))
    × (client_send_plugin_data new_client (65 ∷ []) (1 ∷ 2 ∷ []) each true
        ≡ client_send_plugin_data new_client (65 ∷ []) (1 ∷ 2 ∷ []) table true)
    × (client_register_voice_target new_client 1 table true ≡ sends (voice_target 1 (3 ∷ 4 ∷ [])))
    × (client_register_voice_target new_client 1 each true ≡ sends (voice_target 1 (3 ∷ 4 ∷ [])))
    × (client_request_texture_blob new_client table true ≡ sends (texture_blob (3 ∷ 4 ∷ [])))
    × (client_request_texture_blob new_client each true ≡ sends (texture_blob (3 ∷ 4 ∷ [])))
    × (client_send_plugin_data new_client (65 ∷ []) (1 ∷ 2 ∷ []) wrong true ≡ raises)
    × (client_register_voice_target new_client 1 wrong true ≡ raises)
    × (client_request_texture_blob new_client wrong true ≡ raises)
client_lists_example =
    client_lists new_client (65 ∷ []) (1 ∷ 2 ∷ []) 1 (3 ∷ 4 ∷ []) (some 5 ∷ []) refl
