-- ===== src/Client/Methods/Members.antt =====
-- mumble/channel.c and mumble/user.c with mumble/packet.c: what the server's answer to a method shows.
use lua_mumble.Base.{ℕ, ◌+◌, ◌≤◌, List, [], ◌∷◌, some, true, ◌≡◌, refl, ◌∙◌, ap, arith, map, length}
use lua_mumble.Links.{LinkNode, list_get}
use lua_mumble.Links.Laws.{copies}
use lua_mumble.Client.Users.{MumbleUser, MumbleChannel}
use lua_mumble.Client.Events.{Call}
use lua_mumble.Client.Session.{MumbleClient, channel_get}
use mathlib.Core.Path.{subst}
use lua_mumble.Client.Session.Sound.{IsSound, IsSoundOutcome}
use lua_mumble.Client.Handlers.{or_kept}
use lua_mumble.Client.Handlers.Users.{UserState, packet_user_state, changed_user}
use lua_mumble.Client.Handlers.Users.Effects.{packet_user_state_changed}
use lua_mumble.Client.Handlers.Users.Laws.{IsSound-packet_user_state}
use lua_mumble.Client.Handlers.Channels.{packet_channel_state}
use lua_mumble.Client.Handlers.Channels.Linked.{packet_channel_state_links, times, links_after}
use lua_mumble.Client.Methods.{
  user_state, channel_state, sends, in_table, with_ids, channel_state_init, user_state_init,
}
use lua_mumble.Client.Methods.Ids.{given_ids_lem}
use lua_mumble.Client.Methods.User.{user_move}
use lua_mumble.Client.Methods.Channel.{users_in, channel_link}

-- How often a number stands in a list is at least 1 for a user that the list holds in the channel.
times-users_in :
    (l : List (LinkNode MumbleUser)) (session id : ℕ) (user : MumbleUser)
    → list_get l session ≡ some user
    → user.channel_id ≡ id
    → 1 ≤ times session (users_in id l)
unfolding list_get users_in times
times-users_in [] session id user e c = absurd (ground (arith, e))
times-users_in (node ∷ next) session id user e c =
    ground (arith, e, c, times-users_in next session id user)

-- What `user_move` sends.
abbrev pub moved_to : MumbleUser → MumbleChannel → UserState
moved_to user channel = record user_state_init {
  session = some user.session;
  channel_id = some channel.channel_id;
}

-- `user_move` sends a state that, when the server tells it to a client, has the user stand among the users
-- of the channel there.
pub user_move-users_in :
    (new_ref : ℕ → ℕ) (client after : MumbleClient) (calls : List Call) (user : MumbleUser)
    (channel : MumbleChannel)
    → IsSound client
    → packet_user_state new_ref (moved_to user channel) client ≡ some (after, calls)
    → (user_move user channel ≡ sends (user_state (moved_to user channel)))
      × (1 ≤ times user.session (users_in channel.channel_id after.users.list))
unfolding user_move changed_user or_kept IsSoundOutcome
user_move-users_in new_ref client after calls user channel h e =
    let state = moved_to user channel in
    let (now, others, states, connects) =
      packet_user_state_changed new_ref state user.session client after calls h refl e in
    let sound = subst IsSoundOutcome e (IsSound-packet_user_state new_ref state client h) in
    (
      refl,
      times-users_in after.users.list user.session channel.channel_id _
          (sound.users_kept.agreed.same user.session ∙ now) refl,
    )

-- `channel_link` with a table of channels sends a state that, when the server tells it to a client, adds
-- each channel of the table to the links as often as it stands there.
pub channel_link-links :
    (new_ref : ℕ → ℕ) (client after : MumbleClient) (calls : List Call) (channel : MumbleChannel)
    (list : List ℕ) (k : ℕ)
    → IsSound client
    → let state = record channel_state_init {
      channel_id = some channel.channel_id;
      links_add = list;
    } in
      packet_channel_state new_ref state client ≡ some (after, calls)
      → (channel_link channel true (in_table (length list) (map some list))
          ≡ sends (channel_state state))
        × ((linked : MumbleChannel) × (after.channels.table channel.channel_id ≡ some linked)
            × (copies linked.links k
                ≡ copies (channel_get new_ref channel.channel_id client).1.links k + times k list))
unfolding channel_link with_ids links_after times
channel_link-links new_ref client after calls channel list k h e =
    let state = record channel_state_init {
      channel_id = some channel.channel_id;
      links_add = list;
    } in
    let (linked, found, count, others) =
      packet_channel_state_links new_ref state client channel.channel_id after calls k h refl e in
    (
      ap (λ g. with_ids true g (λ l. channel_state (record state { links_add = l })))
          (given_ids_lem list 0 0 []).0,
      (linked, found, count ∙ omega arith),
    )
