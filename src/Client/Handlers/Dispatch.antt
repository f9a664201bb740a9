-- ===== src/Client/Handlers/Dispatch.antt =====
-- mumble/packet.c, the table of handlers: a message for each entry that is not NULL, and what its handler does.
pub mod Soundness
use lua_mumble.Base.{ℕ, List, [], ◌∷◌, Option, none, some, Bool, ℤ, String, ◌≡◌}
use lua_mumble.Client.Events.{Call, Value}
use lua_mumble.Client.Reports.{
  Reject, TextMessage, QueryUsers, ContextActionModify, ListedUser, CodecVersion, ServerConfig,
  SuggestConfig, PluginData, packet_server_reject, packet_text_message, packet_query_users,
  packet_context_action_modify, packet_user_list, packet_codec_version, packet_server_config,
  packet_suggest_config, packet_plugin_data,
}
use lua_mumble.Client.Reports.Access.{
  Ban, PermissionDenied, Acl, packet_ban_list, packet_permission_denied, packet_acl,
}
use lua_mumble.Client.Reports.Stats.{Version, UserStats, packet_user_stats}
use lua_mumble.Client.Reports.Pongs.{Ping, Times, packet_server_ping}
use lua_mumble.Client.CryptSetup.{Setup}
use lua_mumble.Client.Voice.{Opus, Audio}
use lua_mumble.Client.Session.{MumbleClient, Outcome}
use lua_mumble.Client.Handlers.Tunnel.{
  Connection, Step, on_client, setup_crypt, packet_tcp_udp_tunnel,
}
use lua_mumble.Client.Handlers.{
  ServerSync, PermissionQuery, packet_server_version, packet_server_sync, packet_permission_query,
}
use lua_mumble.Client.Handlers.Channels.{ChannelState, packet_channel_remove, packet_channel_state}
use lua_mumble.Client.Handlers.Users.{UserRemove, UserState, packet_user_remove, packet_user_state}

pub data Message : Type 0 where
  version : Version → Message
  udp_tunnel : List ℕ → Message
  ping : Ping → Message
  reject : Reject → Message
  server_sync : ServerSync → Message
  channel_remove : ℕ → Message
  channel_state : ChannelState → Message
  user_remove : UserRemove → Message
  user_state : UserState → Message
  ban_list : List Ban → Message
  text_message : TextMessage → Message
  permission_denied : PermissionDenied → Message
  acl : Acl → Message
  query_users : QueryUsers → Message
  crypt_setup : Setup → Message
  context_action_modify : ContextActionModify → Message
  user_list : List ListedUser → Message
  permission_query : PermissionQuery → Message
  codec_version : CodecVersion → Message
  user_stats : UserStats → Message
  server_config : ServerConfig → Message
  suggest_config : SuggestConfig → Message
  plugin_data : PluginData → Message

-- A handler that only calls a hook.
unfoldable pub reports : Call → MumbleClient → Outcome
reports call client = some (client, call ∷ [])

module _ (new_ref : ℕ → ℕ) (truncated : ℕ → ℤ) (inet_ntop : Bool → List ℕ → Option (List ℕ))
    (format : String → List ℕ → List ℕ) (opus : Opus) (unpack_audio : List ℕ → Option (ℕ × Audio))
    (unpack_ping : List ℕ → Option ℕ) (pong : ℕ → Value) (update_ping_tcp : ℕ → Times) where
  unfoldable pub packet_handler : Message → Connection → Step
  unfolding reports on_client setup_crypt packet_tcp_udp_tunnel
  packet_handler (version m) c = on_client (packet_server_version m c.client) c
  packet_handler (udp_tunnel body) c =
      packet_tcp_udp_tunnel opus new_ref unpack_audio unpack_ping pong body c
  packet_handler (ping m) c = on_client (reports (packet_server_ping update_ping_tcp m) c.client) c
  packet_handler (reject m) c = on_client (reports (packet_server_reject m) c.client) c
  packet_handler (server_sync m) c = on_client (packet_server_sync new_ref m c.client) c
  packet_handler (channel_remove channel_id) c =
      on_client (packet_channel_remove channel_id c.client) c
  packet_handler (channel_state m) c = on_client (packet_channel_state new_ref m c.client) c
  packet_handler (user_remove m) c = on_client (packet_user_remove new_ref m c.client) c
  packet_handler (user_state m) c = on_client (packet_user_state new_ref m c.client) c
  packet_handler (ban_list m) c =
      on_client (reports (packet_ban_list inet_ntop format m) c.client) c
  packet_handler (text_message m) c =
      on_client (reports (packet_text_message c.client.users c.client.channels m) c.client) c
  packet_handler (permission_denied m) c =
      on_client (reports (packet_permission_denied c.client.users c.client.channels m) c.client) c
  packet_handler (acl m) c = on_client (reports (packet_acl c.client.channels m) c.client) c
  packet_handler (query_users m) c = on_client (reports (packet_query_users m) c.client) c
  packet_handler (crypt_setup m) c = setup_crypt m c
  packet_handler (context_action_modify m) c =
      on_client (reports (packet_context_action_modify m) c.client) c
  packet_handler (user_list m) c =
      on_client (reports (packet_user_list c.client.channels m) c.client) c
  packet_handler (permission_query m) c = on_client (packet_permission_query new_ref m c.client) c
  packet_handler (codec_version m) c = on_client (reports (packet_codec_version m) c.client) c
  packet_handler (user_stats m) c =
      on_client (reports (packet_user_stats truncated inet_ntop format c.client.users m) c.client) c
  packet_handler (server_config m) c = on_client (reports (packet_server_config m) c.client) c
  packet_handler (suggest_config m) c = on_client (reports (packet_suggest_config m) c.client) c
  packet_handler (plugin_data m) c =
      on_client (reports (packet_plugin_data c.client.users m) c.client) c

  -- The connections that messages lead to, one after the other, where the handlers return.
  pub data Reached (first : Connection) : Connection → Type 0 where
    here : Reached first first
    next :
        (m : Message) (c after : Connection) (calls : List Call)
        → Reached first c
        → packet_handler m c ≡ some (after, calls)
        → Reached first after
