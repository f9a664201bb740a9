-- ===== src/Client/Session/Leave.antt =====
-- mumble/mumble.c: what is left after a disconnect.
use lua_mumble.Base.{arith, Bool, ℕ, List, [], ◌∷◌, none, true, false, ◌≡◌, refl, sym, ◌∙◌, ap}
use lua_mumble.Links.{LinkNode, list_get, list_remove}
use lua_mumble.Links.Laws.{list_remove_head}
use lua_mumble.Client.Users.{Known, MumbleUser, MumbleChannel}
use lua_mumble.Client.Users.Kept.{list-mumble_user_remove, list-mumble_channel_remove, IsKept}
use lua_mumble.Client.Session.{
  Call, MumbleClient, remove_users, remove_channels, mumble_client_cleanup, mumble_disconnect,
  leave,
}
use lua_mumble.Client.Session.Sound.{IsSound, IsSound-mumble_disconnect}

list-remove_users :
    (nodes : List (LinkNode MumbleUser)) (users : Known MumbleUser)
    → users.list ≡ nodes
    → (remove_users nodes users).list ≡ []
unfolding remove_users
list-remove_users [] users e = e
list-remove_users (node ∷ next) users e = list-remove_users next _ (
    list-mumble_user_remove users node.index
    ∙ ap (λ l. list_remove l node.index) e
    ∙ list_remove_head node next)

list-remove_channels :
    (nodes : List (LinkNode MumbleChannel)) (channels : Known MumbleChannel)
    → channels.list ≡ nodes
    → (remove_channels nodes channels).list ≡ []
unfolding remove_channels
list-remove_channels [] channels e = e
list-remove_channels (node ∷ next) channels e = list-remove_channels next _ (
    list-mumble_channel_remove channels node.index
    ∙ ap (λ l. list_remove l node.index) e
    ∙ list_remove_head node next)

empty_table :
    {A : Type 0} (id : A → ℕ) (known : Known A)
    → IsKept id known
    → known.list ≡ []
    → (k : ℕ) → known.table k ≡ none
unfolding list_get
empty_table id known h e k = sym (h.agreed.same k) ∙ ap (λ l. list_get l k) e

leave_eq :
    (connecting : Bool) (calls : List Call) (client : MumbleClient)
    → connecting ≡ true
    → leave connecting calls client
      ≡ (mumble_client_cleanup (record client { connecting = false; connected = false }), calls)
unfolding leave
leave_eq true calls client e = refl
leave_eq false calls client e = ground (arith, e)

-- A client that was connecting or connected knows no user and no channel after a disconnect, neither in
-- a table nor in a list, and is not connected.
pub mumble_disconnect_lem :
    (reason : List ℕ) (client : MumbleClient)
    → IsSound client
    → client.connecting ≡ true
    → ((k : ℕ) → (mumble_disconnect reason false client).0.users.table k ≡ none)
      × ((k : ℕ) → (mumble_disconnect reason false client).0.channels.table k ≡ none)
      × ((mumble_disconnect reason false client).0.users.list ≡ [])
      × ((mumble_disconnect reason false client).0.channels.list ≡ [])
      × ((mumble_disconnect reason false client).0.connected ≡ false)
unfolding mumble_disconnect mumble_client_cleanup
mumble_disconnect_lem reason client h e =
    let sound = IsSound-mumble_disconnect reason client h in
    let left = ap (λ pair. pair.0) (leave_eq client.connecting _ client e) in
    let no_users =
      ap (λ c. c.users.list) left ∙ list-remove_users client.users.list client.users refl in
    let no_channels =
      ap (λ c. c.channels.list) left
      ∙ list-remove_channels client.channels.list client.channels refl in
    (
      empty_table (λ user. user.session) _ sound.users_kept no_users,
      empty_table (λ channel. channel.channel_id) _ sound.channels_kept no_channels,
      no_users,
      no_channels,
      ap (λ c. c.connected) left,
    )
