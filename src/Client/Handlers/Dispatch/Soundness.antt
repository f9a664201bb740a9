-- ===== src/Client/Handlers/Dispatch/Soundness.antt =====
-- mumble/packet.c: what holds of a client after any messages of the server.
use lua_mumble.Base.{ℕ, ℤ, List, Option, some, Bool, String, ◌≡◌}
use mathlib.Core.Path.{subst}
use lua_mumble.Client.Events.{Call, Value}
use lua_mumble.Client.Reports.Pongs.{Times}
use lua_mumble.Client.Voice.{Opus, Audio}
use lua_mumble.Client.Handlers.Tunnel.{Connection, setup_crypt}
use lua_mumble.Client.Handlers.Tunnel.Soundness.{
  IsSoundStep, IsSoundStep-on_client, IsSoundStep-tunnel,
}
use lua_mumble.Client.Session.Sound.{IsSound}
use lua_mumble.Client.Handlers.Laws.{
  IsSound-packet_server_version, IsSound-packet_server_sync, IsSound-packet_permission_query,
}
use lua_mumble.Client.Handlers.Channels.Laws.{
  IsSound-packet_channel_remove, IsSound-packet_channel_state,
}
use lua_mumble.Client.Handlers.Users.Laws.{IsSound-packet_user_remove, IsSound-packet_user_state}
use lua_mumble.Client.Handlers.Dispatch.{
  Message, version, udp_tunnel, ping, crypt_setup, reject, server_sync, channel_remove,
  channel_state, user_remove, user_state, ban_list, text_message, permission_denied, acl,
  query_users, context_action_modify, user_list, permission_query, codec_version, user_stats,
  server_config, suggest_config, plugin_data, packet_handler, Reached, here, next,
}

module _ (new_ref : ℕ → ℕ) (truncated : ℕ → ℤ) (inet_ntop : Bool → List ℕ → Option (List ℕ))
    (format : String → List ℕ → List ℕ) (opus : Opus) (unpack_audio : List ℕ → Option (ℕ × Audio))
    (unpack_ping : List ℕ → Option ℕ) (pong : ℕ → Value) (update_ping_tcp : ℕ → Times) where
  IsSoundStep-packet_handler :
      (m : Message) (c : Connection)
      → IsSound c.client
      → IsSoundStep (
          packet_handler new_ref truncated inet_ntop format opus unpack_audio unpack_ping pong
            update_ping_tcp m c)
  unfolding packet_handler setup_crypt IsSoundStep
  IsSoundStep-packet_handler (version m) c h =
      IsSoundStep-on_client _ c (IsSound-packet_server_version m c.client h)
  IsSoundStep-packet_handler (reject m) c h = h
  IsSoundStep-packet_handler (server_sync m) c h =
      IsSoundStep-on_client _ c (IsSound-packet_server_sync new_ref m c.client h)
  IsSoundStep-packet_handler (channel_remove channel_id) c h =
      IsSoundStep-on_client _ c (IsSound-packet_channel_remove channel_id c.client h)
  IsSoundStep-packet_handler (channel_state m) c h =
      IsSoundStep-on_client _ c (IsSound-packet_channel_state new_ref m c.client h)
  IsSoundStep-packet_handler (user_remove m) c h =
      IsSoundStep-on_client _ c (IsSound-packet_user_remove new_ref m c.client h)
  IsSoundStep-packet_handler (user_state m) c h =
      IsSoundStep-on_client _ c (IsSound-packet_user_state new_ref m c.client h)
  IsSoundStep-packet_handler (ban_list m) c h = h
  IsSoundStep-packet_handler (text_message m) c h = h
  IsSoundStep-packet_handler (permission_denied m) c h = h
  IsSoundStep-packet_handler (acl m) c h = h
  IsSoundStep-packet_handler (query_users m) c h = h
  IsSoundStep-packet_handler (context_action_modify m) c h = h
  IsSoundStep-packet_handler (user_list m) c h = h
  IsSoundStep-packet_handler (permission_query m) c h =
      IsSoundStep-on_client _ c (IsSound-packet_permission_query new_ref m c.client h)
  IsSoundStep-packet_handler (codec_version m) c h = h
  IsSoundStep-packet_handler (user_stats m) c h = h
  IsSoundStep-packet_handler (server_config m) c h = h
  IsSoundStep-packet_handler (suggest_config m) c h = h
  IsSoundStep-packet_handler (plugin_data m) c h = h
  IsSoundStep-packet_handler (udp_tunnel body) c h =
      IsSoundStep-tunnel opus new_ref unpack_audio unpack_ping pong body c h
  IsSoundStep-packet_handler (ping m) c h = h
  IsSoundStep-packet_handler (crypt_setup m) c h = h

  after-IsSound :
      (m : Message) (c after : Connection) (calls : List Call)
      → IsSound c.client
      → packet_handler new_ref truncated inet_ntop format opus unpack_audio unpack_ping pong
          update_ping_tcp m c
        ≡ some (after, calls)
      → IsSound after.client
  unfolding IsSoundStep
  after-IsSound m c after calls h e = subst IsSoundStep e (IsSoundStep-packet_handler m c h)

  -- Whatever messages the server sends, in any order, voice through the tunnel among them, as long as their
  -- handlers return: at every number the table and the list of users hold the same user, each once and at
  -- its own session, and so do those of the channels, if it was so before.
  pub Reached_lem :
      (first c : Connection)
      → IsSound first.client
      → Reached new_ref truncated inet_ntop format opus unpack_audio unpack_ping pong
          update_ping_tcp first c
      → IsSound c.client
  Reached_lem first c h here = h
  Reached_lem first c h (next m before after calls reached e) =
      after-IsSound m before c calls (Reached_lem first before h reached) e
