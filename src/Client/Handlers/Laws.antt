-- ===== src/Client/Handlers/Laws.antt =====
-- mumble/packet.c: the handlers of the server's state keep what is known sound.
use lua_mumble.Base.{if◌then◌else◌, ◌>>=◌, ℕ, Option, none, some, Bool, true, false, refl}
use lua_mumble.Client.Session.{MumbleClient, Outcome, change_channel, channel_get}
use lua_mumble.Client.Session.Objects.{IsKept-update_all}
use lua_mumble.Client.Session.Sound.{
  IsSound, IsSoundOutcome, IsSound-channel_get, IsSound-change_channel,
}
use lua_mumble.Client.Handlers.{
  or_kept, ServerSync, PermissionQuery, packet_server_version, packet_server_sync,
  packet_permission_query, set_bandwidth, set_root, query_permissions, flush_permissions,
}
use lua_mumble.Client.Bandwidth.{adjust_audio_bandwidth}
use lua_mumble.Client.Reports.Stats.{Version}

pub IsSound-packet_server_version :
    (version : Version) (client : MumbleClient)
    → IsSound client
    → IsSoundOutcome (packet_server_version version client)
unfolding packet_server_version IsSoundOutcome
IsSound-packet_server_version version client h = record {
  users_kept = h.users_kept;
  channels_kept = h.channels_kept;
}

IsSound-flush_permissions :
    (client : MumbleClient) → IsSound client → IsSound (flush_permissions client)
unfolding flush_permissions
IsSound-flush_permissions client h = record {
  users_kept = h.users_kept;
  channels_kept =
      IsKept-update_all (λ channel. channel.channel_id) _ client.channels h.channels_kept
        (λ channel. refl);
}

flush-IsSound :
    (flush : Bool) (client : MumbleClient)
    → IsSound client
    → IsSound (if flush then flush_permissions client else client)
flush-IsSound true client h = IsSound-flush_permissions client h
flush-IsSound false client h = h

set_bandwidth_then :
    (o : Option ℕ) (client : MumbleClient) (k : MumbleClient → Outcome)
    → IsSound client
    → ((adjusted : MumbleClient) → IsSound adjusted → IsSoundOutcome (k adjusted))
    → IsSoundOutcome (set_bandwidth o client >>= k)
unfolding set_bandwidth IsSoundOutcome
set_bandwidth_then none client k h then_sound = then_sound client h
set_bandwidth_then (some limit) client k h then_sound =
    settled (adjust_audio_bandwidth client.audio_frames limit client.bitrate)
  where
    settled :
        (o : Option (ℕ × ℕ × ℕ))
        → IsSoundOutcome (
            (o >>= λ (audio_frames, bitrate, buffer_length). some (record client {
              max_bandwidth = limit;
              audio_frames = audio_frames;
              bitrate = bitrate;
            }))
            >>= k)
    settled none = tt
    settled (some (audio_frames, bitrate, buffer_length)) =
        then_sound _ (record { users_kept = h.users_kept; channels_kept = h.channels_kept })

module _ (new_ref : ℕ → ℕ) where
  set_permissions-IsSound :
      (channel_id permissions : ℕ) (client : MumbleClient)
      → IsSound client
      → IsSound (
          change_channel channel_id
            (λ channel. record channel { permissions = permissions })
            (channel_get new_ref channel_id client).0)
  set_permissions-IsSound channel_id permissions client h =
      let (known, found) = IsSound-channel_get new_ref client h channel_id in
      IsSound-change_channel _ known channel_id _ (λ channel. refl)

  IsSound-set_root :
      (permissions : Option ℕ) (client : MumbleClient)
      → IsSound client
      → IsSound (set_root new_ref permissions client)
  unfolding set_root
  IsSound-set_root none client h = h
  IsSound-set_root (some permissions) client h = set_permissions-IsSound 0 permissions client h

  pub IsSound-packet_server_sync :
      (sync : ServerSync) (client : MumbleClient)
      → IsSound client
      → IsSoundOutcome (packet_server_sync new_ref sync client)
  unfolding packet_server_sync IsSoundOutcome
  IsSound-packet_server_sync sync client h =
      set_bandwidth_then sync.max_bandwidth _ _
        (record { users_kept = h.users_kept; channels_kept = h.channels_kept })
        (λ adjusted sound. IsSound-set_root sync.permissions adjusted sound)

  IsSound-query_permissions :
      (channel_id permissions : Option ℕ) (flush : Option Bool) (client : MumbleClient)
      → IsSound client
      → IsSound (query_permissions new_ref channel_id permissions flush client)
  unfolding query_permissions
  IsSound-query_permissions (some channel_id) (some permissions) flush client h =
      set_permissions-IsSound channel_id permissions client h
  IsSound-query_permissions (some channel_id) none flush client h =
      flush-IsSound (or_kept flush false) client h
  IsSound-query_permissions none permissions flush client h =
      flush-IsSound (or_kept flush false) client h

  pub IsSound-packet_permission_query :
      (query : PermissionQuery) (client : MumbleClient)
      → IsSound client
      → IsSoundOutcome (packet_permission_query new_ref query client)
  unfolding packet_permission_query IsSoundOutcome
  IsSound-packet_permission_query query client h =
      IsSound-query_permissions query.channel_id query.permissions query.flush client h
