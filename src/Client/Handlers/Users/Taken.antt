-- ===== src/Client/Handlers/Users/Taken.antt =====
-- mumble/packet.c, `packet_user_state`: the fields of a user after a message.
use lua_mumble.Base.{
  ℕ, ◌+◌, ◌-◌, ◌≢◌, List, Option, none, some, true, not, ◌&&◌, if◌then◌else◌, length, ◌≡◌, refl,
  arith,
}
use lua_mumble.Strndup.{strndup}
use lua_mumble.Links.{LinkNode}
use lua_mumble.Links.Laws.{copies}
use lua_mumble.Client.Events.{Call}
use lua_mumble.Client.Users.{MumbleUser}
use lua_mumble.Client.Session.{MumbleClient}
use lua_mumble.Client.Session.Sound.{IsSound}
use lua_mumble.Client.Handlers.{or_kept, or_kept_some, copy_of, length_of}
use lua_mumble.Client.Handlers.Channels.{add_all, remove_all}
use lua_mumble.Client.Handlers.Channels.Linked.{times, copies-add_all, copies-remove_all}
use lua_mumble.Client.Handlers.Users.{UserState, changed_user, packet_user_state}
use lua_mumble.Client.Handlers.Users.Effects.{hooks_in, user_before, packet_user_state_changed}

-- A field of the message that is there is the user's, else the user keeps the one from before.
unfoldable pub IsTaken : {A : Type 0} → Option A → A → A → Type 0
IsTaken none before after = after ≡ before
IsTaken (some field) before after = after ≡ field

-- The same for a text or bytes, of which the user has a copy by `copy`, or none.
unfoldable pub IsCopied :
    (List ℕ → List ℕ) → Option (List ℕ) → Option (List ℕ) → Option (List ℕ) → Type 0
IsCopied copy none before after = after ≡ before
IsCopied copy (some bytes) before after = after ≡ some (copy bytes)

unfoldable pub IsLength : Option (List ℕ) → ℕ → ℕ → Type 0
IsLength none before after = after ≡ before
IsLength (some bytes) before after = after ≡ length bytes

-- The user of a session before and after a message about it. The copies of bytes end at the first zero,
-- and their lengths are those of the message.
pub record HasState (state : UserState) (session : ℕ) (before after : MumbleUser) : Type 0 where
  pub data_ref : after.data_ref ≡ before.data_ref
  pub connected : after.connected ≡ true
  pub session_kept : after.session ≡ session
  pub user_id : IsTaken state.user_id before.user_id after.user_id
  pub channel_id : IsTaken state.channel_id before.channel_id after.channel_id
  pub name : IsCopied (λ t. t) state.name before.name after.name
  pub mute : IsTaken state.mute before.mute after.mute
  pub deaf : IsTaken state.deaf before.deaf after.deaf
  pub self_mute : IsTaken state.self_mute before.self_mute after.self_mute
  pub self_deaf : IsTaken state.self_deaf before.self_deaf after.self_deaf
  pub suppress : IsTaken state.suppress before.suppress after.suppress
  pub comment : IsCopied (λ t. t) state.comment before.comment after.comment
  pub comment_hash : IsCopied strndup state.comment_hash before.comment_hash after.comment_hash
  pub comment_hash_len : IsLength state.comment_hash before.comment_hash_len after.comment_hash_len
  pub speaking : after.speaking ≡ before.speaking
  pub recording : IsTaken state.recording before.recording after.recording
  pub priority_speaker :
      IsTaken state.priority_speaker before.priority_speaker after.priority_speaker
  pub texture : IsCopied strndup state.texture before.texture after.texture
  pub texture_hash : IsCopied strndup state.texture_hash before.texture_hash after.texture_hash
  pub texture_hash_len : IsLength state.texture_hash before.texture_hash_len after.texture_hash_len
  pub hash : IsCopied (λ t. t) state.hash before.hash after.hash
  pub listens :
      (k : ℕ)
      → copies after.listens k
        ≡ copies before.listens k
          + times k state.listening_channel_add
          - times k state.listening_channel_remove

or_kept-IsTaken :
    {A : Type 0} (field : Option A) (before : A) → IsTaken field before (or_kept field before)
unfolding IsTaken or_kept
or_kept-IsTaken none before = refl
or_kept-IsTaken (some field) before = refl

or_kept_some-IsCopied :
    (field before : Option (List ℕ)) → IsCopied (λ t. t) field before (or_kept_some field before)
unfolding IsCopied or_kept_some
or_kept_some-IsCopied none before = refl
or_kept_some-IsCopied (some field) before = refl

copy_of-IsCopied :
    (field before : Option (List ℕ)) → IsCopied strndup field before (copy_of field before)
unfolding IsCopied copy_of
copy_of-IsCopied none before = refl
copy_of-IsCopied (some field) before = refl

length_of-IsLength :
    (field : Option (List ℕ)) (before : ℕ) → IsLength field before (length_of field before)
unfolding IsLength length_of
length_of-IsLength none before = refl
length_of-IsLength (some field) before = refl

listens_after :
    (add remove : List ℕ) (links : List (LinkNode (Unit {0}))) (k : ℕ)
    → copies (remove_all remove (add_all add links)) k
      ≡ copies links k + times k add - times k remove
listens_after add remove links k =
    omega (arith, copies-remove_all remove (add_all add links) k, copies-add_all add links k)

changed_user-HasState :
    (state : UserState) (session : ℕ) (user : MumbleUser)
    → HasState state session user (changed_user state session user)
unfolding changed_user
changed_user-HasState state session user = record {
  data_ref = refl;
  connected = refl;
  session_kept = refl;
  user_id = or_kept-IsTaken state.user_id user.user_id;
  channel_id = or_kept-IsTaken state.channel_id user.channel_id;
  name = or_kept_some-IsCopied state.name user.name;
  mute = or_kept-IsTaken state.mute user.mute;
  deaf = or_kept-IsTaken state.deaf user.deaf;
  self_mute = or_kept-IsTaken state.self_mute user.self_mute;
  self_deaf = or_kept-IsTaken state.self_deaf user.self_deaf;
  suppress = or_kept-IsTaken state.suppress user.suppress;
  comment = or_kept_some-IsCopied state.comment user.comment;
  comment_hash = copy_of-IsCopied state.comment_hash user.comment_hash;
  comment_hash_len = length_of-IsLength state.comment_hash user.comment_hash_len;
  speaking = refl;
  recording = or_kept-IsTaken state.recording user.recording;
  priority_speaker = or_kept-IsTaken state.priority_speaker user.priority_speaker;
  texture = copy_of-IsCopied state.texture user.texture;
  texture_hash = copy_of-IsCopied state.texture_hash user.texture_hash;
  texture_hash_len = length_of-IsLength state.texture_hash user.texture_hash_len;
  hash = or_kept_some-IsCopied state.hash user.hash;
  listens = listens_after state.listening_channel_add state.listening_channel_remove user.listens;
}

-- Where the handler of a user's state returns, for a message with a session: the user of the session is
-- the one that was known, or a new one, with each field that the message has and its own other fields, and
-- is connected; a channel is listened to as often as before, more by its additions and less by its removals.
-- No other session changes. `OnUserState` is called once; `OnUserConnect` is called once where the user was
-- not connected and the client is synced, and else not at all.
pub packet_user_state_lem :
    (new_ref : ℕ → ℕ) (state : UserState) (session : ℕ) (client after : MumbleClient)
    (calls : List Call)
    → IsSound client
    → state.session ≡ some session
    → packet_user_state new_ref state client ≡ some (after, calls)
    → ((user : MumbleUser) × (after.users.table session ≡ some user)
        × HasState state session (user_before new_ref session client) user)
      × ((k : ℕ) → k ≢ session → after.users.table k ≡ client.users.table k)
      × (hooks_in "OnUserState" calls ≡ 1)
      × (hooks_in "OnUserConnect" calls
          ≡ (if not (user_before new_ref session client).connected && client.synced then 1 else 0))
packet_user_state_lem new_ref state session client after calls h own e =
    let (now, others, states, connects) =
      packet_user_state_changed new_ref state session client after calls h own e in
    ((_, now, changed_user-HasState state session _), others, states, connects)
