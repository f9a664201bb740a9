-- ===== src/Client/Handlers/Flush.antt =====
-- mumble/packet.c: the permissions after a message that flushes them.
use lua_mumble.Base.{ℕ, List, Option, none, some, true, ◌≡◌, refl, sym, ◌∙◌, ap, ap₂, arith}
use lua_mumble.Client.Events.{Call}
use lua_mumble.Client.Users.{MumbleChannel}
use lua_mumble.Client.Session.{MumbleClient, update_all, change_found}
use lua_mumble.Client.Session.Outcomes.{some_eq}
use lua_mumble.Client.Handlers.{
  PermissionQuery, packet_permission_query, query_permissions, flush_permissions, or_kept,
}

flushed :
    (new_ref : ℕ → ℕ) (channel_id : Option ℕ) (client : MumbleClient)
    → query_permissions new_ref channel_id none (some true) client ≡ flush_permissions client
unfolding query_permissions or_kept
flushed new_ref none client = refl
flushed new_ref (some channel_id) client = refl

found_zero :
    (o : Option MumbleChannel) (channel : MumbleChannel)
    → change_found (λ c. record c { permissions = 0 }) o ≡ some channel
    → channel.permissions ≡ 0
unfolding change_found
found_zero none channel e = absurd (ground (arith, e))
found_zero (some c) channel e = ap (λ c. c.permissions) (some_eq e)

found_none :
    (o : Option MumbleChannel)
    → change_found (λ c. record c { permissions = 0 }) o ≡ none
    → o ≡ none
unfolding change_found
found_none none e = refl
found_none (some c) e = absurd (ground (arith, e))

-- After a message that flushes the permissions and gives none, every channel has the permissions 0, and
-- the client knows the channels that it knew.
pub packet_permission_query_flush :
    (new_ref : ℕ → ℕ) (query : PermissionQuery) (client after : MumbleClient) (calls : List Call)
    → query.permissions ≡ none
    → query.flush ≡ some true
    → packet_permission_query new_ref query client ≡ some (after, calls)
    → (k : ℕ)
    → ((channel : MumbleChannel) → after.channels.table k ≡ some channel → channel.permissions ≡ 0)
      × (after.channels.table k ≡ none → client.channels.table k ≡ none)
unfolding packet_permission_query flush_permissions update_all change_found
packet_permission_query_flush new_ref query client after calls no_permissions flush e k =
    let left =
      ap (λ p. p.0.channels.table k) (some_eq e)
      ∙ ap₂ (λ o f. (query_permissions new_ref query.channel_id o f client).channels.table k)
          no_permissions flush
      ∙ ap (λ c. c.channels.table k) (flushed new_ref query.channel_id client) in
    (
      λ channel found. found_zero (client.channels.table k) channel (sym left ∙ found),
      λ absent. found_none (client.channels.table k) (sym left ∙ absent),
    )
