-- ===== src/Client/Handlers/Channels/Laws.antt =====
-- mumble/packet.c: the channel handlers keep what is known sound.
use lua_mumble.Base.{ℕ, refl}
use lua_mumble.Client.Users.Kept.{IsKept-mumble_channel_remove}
use lua_mumble.Client.Session.{MumbleClient}
use lua_mumble.Client.Session.Sound.{
  IsSound, IsSoundOutcome, IsSoundOutcome->>=, IsSoundOutcome-needs, IsSound-channel_get,
  IsSound-change_channel,
}
use lua_mumble.Client.Handlers.{push_copy, push_hex}
use lua_mumble.Client.Handlers.Channels.{
  ChannelState, changed_channel, packet_channel_remove, packet_channel_state, channel_state,
}

pub IsSound-packet_channel_remove :
    (channel_id : ℕ) (client : MumbleClient)
    → IsSound client
    → IsSoundOutcome (packet_channel_remove channel_id client)
unfolding packet_channel_remove IsSoundOutcome
IsSound-packet_channel_remove channel_id client h = record {
  users_kept = h.users_kept;
  channels_kept = IsKept-mumble_channel_remove client.channels channel_id h.channels_kept;
}

module _ (new_ref : ℕ → ℕ) (state : ChannelState) (client : MumbleClient) (h : IsSound client) where
  IsSound-channel_state :
      (channel_id : ℕ) → IsSoundOutcome (channel_state new_ref state channel_id client)
  unfolding channel_state IsSoundOutcome changed_channel
  IsSound-channel_state channel_id =
      let (known, found) = IsSound-channel_get new_ref client h channel_id in
      IsSoundOutcome->>= (push_copy push_hex state.description_hash) _ (λ hash.
        IsSound-change_channel _ known channel_id (changed_channel state) (λ channel. refl))

  pub IsSound-packet_channel_state : IsSoundOutcome (packet_channel_state new_ref state client)
  unfolding packet_channel_state
  IsSound-packet_channel_state =
      IsSoundOutcome-needs state.channel_id _ client h IsSound-channel_state
