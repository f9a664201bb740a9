-- ===== src/Client/Handlers/Channels/Linked.antt =====
-- mumble/packet.c: which channels are linked after a message.
use lua_mumble.Base.{
  ◌-◌, ◌+◌, ℕ, suc, ◌==◌, List, [], ◌∷◌, some, ◌≡◌, ◌≢◌, refl, sym, ◌∙◌, ap, arith, if◌then◌else◌,
}
use lua_mumble.Links.{LinkNode, list_add, list_remove}
use lua_mumble.Links.Laws.{copies, copies-list_add, copies-list_remove_eq, list_clear_lem}
use lua_mumble.Client.Events.{Call}
use lua_mumble.Client.Users.{MumbleChannel}
use lua_mumble.Client.Users.Agree.{mumble_channel_get_lem}
use lua_mumble.Client.Session.{MumbleClient, channel_get, change_channel, needs}
use lua_mumble.Client.Session.Objects.{table-update}
use lua_mumble.Client.Session.Outcomes.{returned_parts}
use lua_mumble.Client.Session.Sound.{IsSound, IsSound-channel_get}
use lua_mumble.Client.Handlers.{push_copy, push_hex}
use lua_mumble.Client.Handlers.Channels.{
  channel_state, packet_channel_state, changed_channel, ChannelState, add_all, remove_all,
  replace_all,
}

-- How often a number stands in a list.
unfoldable pub times : ℕ → List ℕ → ℕ
times k [] = 0
times k (id ∷ rest) = let later = times k rest in if id == k then suc later else later

pub copies-add_all :
    (ids : List ℕ) (links : List (LinkNode (Unit {0}))) (k : ℕ)
    → copies (add_all ids links) k ≡ times k ids + copies links k
unfolding add_all times
copies-add_all [] links k = omega arith
copies-add_all (id ∷ rest) links k =
    ground (arith, copies-add_all rest (list_add links id tt) k, copies-list_add links id tt k)

pub copies-remove_all :
    (ids : List ℕ) (links : List (LinkNode (Unit {0}))) (k : ℕ)
    → copies (remove_all ids links) k ≡ copies links k - times k ids
unfolding remove_all times
copies-remove_all [] links k = omega arith
copies-remove_all (id ∷ rest) links k =
    ground
      (arith, copies-remove_all rest (list_remove links id) k, copies-list_remove_eq links id k)

-- How often a channel stands in the links after a message whose `links` are `ids`, where the links that
-- were there, the added and the removed ones make `kept`.
unfoldable pub links_after : List ℕ → ℕ → ℕ → ℕ
unfolding times
links_after [] kept k = kept
links_after (id ∷ rest) kept k = times k (id ∷ rest)

copies_none : (k : ℕ) → copies {A = Unit {0}} [] k ≡ 0
unfolding copies
copies_none k = refl

copies-replace_all :
    (ids : List ℕ) (links : List (LinkNode (Unit {0}))) (k : ℕ)
    → copies (replace_all ids links) k ≡ links_after ids (copies links k) k
unfolding replace_all links_after
copies-replace_all [] links k = refl
copies-replace_all (id ∷ rest) links k =
    ap (λ l. copies (add_all (id ∷ rest) l) k) (list_clear_lem links)
    ∙ copies-add_all (id ∷ rest) [] k
    ∙ omega (arith, copies_none k)

module _ (new_ref : ℕ → ℕ) (state : ChannelState) (client : MumbleClient) (channel_id : ℕ) where
  -- Where the handler of a channel's state returns, for a message with a channel: the links of the channel
  -- are those of the message where it has any, each as often as there; else the links that were there
  -- with the added ones, less the removed ones. No other channel changes.
  pub packet_channel_state_links :
      (after : MumbleClient) (calls : List Call) (k : ℕ)
      → IsSound client
      → state.channel_id ≡ some channel_id
      → packet_channel_state new_ref state client ≡ some (after, calls)
      → (channel : MumbleChannel) × (after.channels.table channel_id ≡ some channel)
        × (copies channel.links k
            ≡ links_after state.links
                (copies (channel_get new_ref channel_id client).1.links k
                  + times k state.links_add
                  - times k state.links_remove)
                k)
        × (k ≢ channel_id → after.channels.table k ≡ client.channels.table k)
  unfolding packet_channel_state channel_state needs change_channel channel_get changed_channel
  packet_channel_state_links after calls k h own e =
      let old = (channel_get new_ref channel_id client).1.links in
      let (known, found) = IsSound-channel_get new_ref client h channel_id in
      let (hash, e₁, e₂) =
        returned_parts (push_copy push_hex state.description_hash)
          (sym (ap (λ o. needs o (channel_state new_ref state) client) own) ∙ e) in
      let (now, others) =
        table-update channel_id (changed_channel state)
          (channel_get new_ref channel_id client).0.channels _ found in
      (
        changed_channel state (channel_get new_ref channel_id client).1,
        ap (λ c. c.channels.table channel_id) e₁ ∙ now,
        copies-replace_all state.links _ k
            ∙ ap (λ n. links_after state.links n k)
                (omega (
                  arith,
                  copies-remove_all state.links_remove (add_all state.links_add old) k,
                  copies-add_all state.links_add old k,
                )),
        λ n.
            ap (λ c. c.channels.table k) e₁
            ∙ others k n
            ∙ (mumble_channel_get_lem (new_ref client.refs) client.channels channel_id
                  h.channels_kept.agreed).2
                k n,
      )
