-- ===== src/Client/Handlers/Users/Laws.antt =====
-- mumble/packet.c: the user handlers keep what is known sound.
use lua_mumble.Base.{ℕ, List, [], ◌∷◌, Option, none, some, refl, Bool-cases, inl, inr, ◌==◌, Bool}
use lua_mumble.Client.Users.Kept.{IsKept-mumble_user_remove}
use lua_mumble.Client.Session.{MumbleClient}
use lua_mumble.Client.Session.Sound.{
  IsSound, IsSoundOutcome, IsSoundOutcome->>=, IsSoundOutcome-needs, IsSound-user_get,
  IsSound-channel_get, IsSound-change_user, IsSound-change_channel, IsSound-mumble_disconnect,
}
use lua_mumble.Client.Handlers.Users.{
  UserRemove, UserState, VolumeAdjustment, actor_of, changed_user, copies_of, set_volumes,
  packet_user_remove, packet_user_state, user_state,
}

module _ (new_ref : ℕ → ℕ) where
  pub IsSound-actor_of :
      (actor : Option ℕ) (ban : Option Bool) (client : MumbleClient)
      → IsSound client
      → IsSound (actor_of new_ref actor ban client).0
  unfolding actor_of
  IsSound-actor_of (some session) (some ban) client h =
      (IsSound-user_get new_ref client h session).0
  IsSound-actor_of (some session) none client h = h
  IsSound-actor_of none ban client h = h

  IsSound-set_volumes :
      (adjustments : List VolumeAdjustment) (client : MumbleClient)
      → IsSound client
      → IsSound (set_volumes new_ref adjustments client)
  unfolding set_volumes
  IsSound-set_volumes [] client h = h
  IsSound-set_volumes (v ∷ rest) client h =
      let (known, found) = IsSound-channel_get new_ref client h v.listening_channel in
      IsSound-set_volumes rest _
        (IsSound-change_channel _ known v.listening_channel _ (λ channel. refl))

  pub IsSound-packet_user_state :
      (state : UserState) (client : MumbleClient)
      → IsSound client
      → IsSoundOutcome (packet_user_state new_ref state client)
  unfolding packet_user_state user_state IsSoundOutcome changed_user
  IsSound-packet_user_state state client h =
      IsSoundOutcome-needs state.session _ client h (λ session.
        let (known, found) = IsSound-user_get new_ref client h session in
        IsSoundOutcome->>= (copies_of state) _ (λ copies.
          IsSound-set_volumes state.listening_volume_adjustment _
            (IsSound-change_user _ known session (changed_user state session) (λ user e. refl))))

  pub IsSound-packet_user_remove :
      (user : UserRemove) (client : MumbleClient)
      → IsSound client
      → IsSoundOutcome (packet_user_remove new_ref user client)
  unfolding packet_user_remove IsSoundOutcome
  IsSound-packet_user_remove user client h = elim (Bool-cases (client.session == user.session)) [
    | inl own ↦
        rw own (IsSound-mumble_disconnect _ _ (IsSound-actor_of user.actor user.ban client h))
    | inr other ↦ rw other (record {
      users_kept = IsKept-mumble_user_remove client.users user.session h.users_kept;
      channels_kept = h.channels_kept;
    })
  ]
