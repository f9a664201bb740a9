-- ===== src/Client/Handlers/Copies.antt =====
-- mumble/packet.c, SAFE_STRNDUP: fields of bytes that are copied as texts and read back by their length.
use lua_mumble.Base.{ℕ, List, ◌∷◌, ◌++◌, Option, none, some, ◌≡◌, refl, ◌∙◌, ap, arith, ◌>>=◌}
use lua_mumble.Client.Events.{Value, lua_string}
use lua_mumble.Client.Session.{MumbleClient, needs}
use lua_mumble.Strndup.{IsText, read_copy, read_copy_text, read_copy_zero}
use lua_mumble.Client.Handlers.{push_copy, push_hex}
use lua_mumble.Client.Handlers.Channels.{ChannelState, packet_channel_state, channel_state}
use lua_mumble.Client.Handlers.Users.{UserState, packet_user_state, user_state, copies_of}

bind_none : {A B : Type 0} (o : Option A) (k : A → Option B) → o ≡ none → (o >>= k) ≡ none
bind_none none k e = refl
bind_none (some a) k e = absurd (ground (arith, e))

push_copy_zero :
    (push : List ℕ → Value) (o : Option (List ℕ)) (before rest : List ℕ) (c : ℕ)
    → IsText before
    → o ≡ some (before ++ 0 ∷ c ∷ rest)
    → push_copy push o ≡ none
unfolding push_copy
push_copy_zero push o before rest c h e =
    ap (push_copy push) e ∙ bind_none _ _ (read_copy_zero before rest c h)

-- A hash of a channel, or a texture of a user, with a zero byte before its last byte is read past the end
-- of its copy; a field without a zero byte is read in full.
pub packet_state_zero :
    (new_ref : ℕ → ℕ) (client : MumbleClient) (before rest : List ℕ) (c : ℕ)
    → IsText before
    → ((state : ChannelState) (channel_id : ℕ)
        → state.channel_id ≡ some channel_id
        → state.description_hash ≡ some (before ++ 0 ∷ c ∷ rest)
        → packet_channel_state new_ref state client ≡ none)
      × ((state : UserState) (session : ℕ)
          → state.session ≡ some session
          → state.texture ≡ some (before ++ 0 ∷ c ∷ rest)
          → packet_user_state new_ref state client ≡ none)
      × (read_copy before ≡ some before)
unfolding packet_channel_state channel_state packet_user_state user_state copies_of needs
packet_state_zero new_ref client before rest c h = (
  λ state channel_id own e.
      ap (λ o. needs o (channel_state new_ref state) client) own
      ∙ bind_none _ _ (push_copy_zero push_hex state.description_hash before rest c h e),
  λ state session own e.
      ap (λ o. needs o (user_state new_ref state) client) own
      ∙ bind_none _ _ (bind_none _ _ (push_copy_zero lua_string state.texture before rest c h e)),
  read_copy_text before h,
)
