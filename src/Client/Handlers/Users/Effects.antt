-- ===== src/Client/Handlers/Users/Effects.antt =====
-- mumble/packet.c: what a message about a user does to the users and which hooks it calls.
use lua_mumble.Base.{
  ◌+◌, ℕ, suc, ◌≢◌, List, [], ◌∷◌, ◌++◌, Option, none, some, Bool, true, false, if◌then◌else◌, not,
  ◌&&◌, ◌≡◌, refl, ◌∙◌, ap, sym, arith, String,
}
use mathlib.Core.Path.{subst}
use text.Mathlib.Text.{◌==◌ as str_eq}
use lua_mumble.Client.Users.Kept.{mumble_user_get_found}
use lua_mumble.Client.Session.Outcomes.{returned_parts}
use lua_mumble.Client.Session.Objects.{table-update}
use lua_mumble.Client.Session.Sound.{IsSoundOutcome}
use lua_mumble.Client.Handlers.Users.Laws.{IsSound-packet_user_state}
use lua_mumble.Client.Events.{Call, Value}
use lua_mumble.Client.Users.{MumbleUser}
use lua_mumble.Client.Users.Agree.{mumble_user_get_lem}
use lua_mumble.Client.Session.{
  MumbleClient, Outcome, change_channel, user_get, channel_get, change_user, needs, update,
}
use lua_mumble.Client.Session.Sound.{IsSound, IsSound-user_get}
use lua_mumble.Client.Handlers.Users.{
  change_channel, UserState, VolumeAdjustment, Copies, changed_user, copies_of, set_volumes,
  packet_user_state, user_state, call_if, state_calls, connect_calls, channel_calls,
}

-- How often a hook is called.
unfoldable pub hooks_in : String → List Call → ℕ
hooks_in hook [] = 0
hooks_in hook (call ∷ rest) =
    let later = hooks_in hook rest in if str_eq call.hook hook then suc later else later

-- The session's user before a message, which is a new one where there is none.
unfoldable pub user_before : (ℕ → ℕ) → ℕ → MumbleClient → MumbleUser
user_before new_ref session client = (user_get new_ref session client).1

module _ (new_ref : ℕ → ℕ) where
  users-set_volumes :
      (adjustments : List VolumeAdjustment) (client : MumbleClient)
      → (set_volumes new_ref adjustments client).users ≡ client.users
  unfolding set_volumes change_channel channel_get
  users-set_volumes [] client = refl
  users-set_volumes (v ∷ rest) client = users-set_volumes rest _ ∙ refl

hooks_in-append :
    (hook : String) (before after : List Call)
    → hooks_in hook (before ++ after) ≡ hooks_in hook before + hooks_in hook after
unfolding hooks_in
hooks_in-append hook [] after = omega arith
hooks_in-append hook (call ∷ before) after =
    branch (str_eq call.hook hook) _ _ _ (hooks_in-append hook before after)
  where
    branch :
        (b : Bool) (m n k : ℕ) → m ≡ n + k → (if b then suc m else m) ≡ (if b then suc n else n) + k
    branch true m n k e = omega (arith, e)
    branch false m n k e = omega (arith, e)

hooks_in_none : (hook : String) → hooks_in hook [] ≡ 0
unfolding hooks_in
hooks_in_none hook = refl

hooks_in_one :
    (hook : String) (call : Call)
    → hooks_in hook (call ∷ []) ≡ (if str_eq call.hook hook then 1 else 0)
unfolding hooks_in
hooks_in_one hook call = refl

-- A call that is made under a condition.
hooks_in_other :
    (hook : String) (b : Bool) (call : Call)
    → str_eq call.hook hook ≡ false
    → hooks_in hook (call_if b call) ≡ 0
unfolding hooks_in call_if
hooks_in_other hook true call e = rw e refl
hooks_in_other hook false call e = refl

hooks_in_same :
    (hook : String) (b : Bool) (call : Call)
    → str_eq call.hook hook ≡ true
    → hooks_in hook (call_if b call) ≡ (if b then 1 else 0)
unfolding hooks_in call_if
hooks_in_same hook true call e = rw e refl
hooks_in_same hook false call e = refl

hooks_in-three :
    (hook : String) (before then_calls : List Call) (last : Call) {n m : ℕ}
    → hooks_in hook before ≡ 0
    → hooks_in hook then_calls ≡ n
    → (if str_eq last.hook hook then 1 else 0) ≡ m
    → hooks_in hook (before ++ then_calls ++ (last ∷ [])) ≡ n + m
hooks_in-three hook before then_calls last h₁ h₂ h₃ = omega (
  arith,
  h₁,
  h₂,
  h₃,
  hooks_in-append hook (before ++ then_calls) (last ∷ []),
  hooks_in-append hook before then_calls,
  hooks_in_one hook last,
)

module _ (new_ref : ℕ → ℕ) (state : UserState) (session : ℕ) (client : MumbleClient) where
  -- The result where there is one.
  user_state_parts :
      (after : MumbleClient) (calls : List Call)
      → user_state new_ref state session client ≡ some (after, calls)
      → (copies : Copies) × (after
          ≡ set_volumes new_ref state.listening_volume_adjustment (
              change_user session (changed_user state session) (user_get new_ref session client).0))
        × (calls
            ≡ state_calls new_ref state session copies
                (user_before new_ref session client)
                (user_get new_ref session client).0)
  unfolding user_state user_before
  user_state_parts after calls e = returned_parts (copies_of state) e

  users_after :
      (after : MumbleClient) (calls : List Call)
      → user_state new_ref state session client ≡ some (after, calls)
      → after.users
        ≡ update session (changed_user state session) (user_get new_ref session client).0.users
  unfolding change_user
  users_after after calls e =
      let (copies, e₁, e₂) = user_state_parts after calls e in
      ap (λ c. c.users) e₁ ∙ users-set_volumes new_ref state.listening_volume_adjustment _

  hooks_in-channel_calls :
      (channel_id : Option ℕ) (user : MumbleUser) (known : MumbleClient)
      → (hooks_in "OnUserState" (channel_calls channel_id state session user known) ≡ 0)
        × (hooks_in "OnUserConnect" (channel_calls channel_id state session user known) ≡ 0)
  unfolding channel_calls
  hooks_in-channel_calls none user known =
      (hooks_in_none "OnUserState", hooks_in_none "OnUserConnect")
  hooks_in-channel_calls (some to) user known =
      (hooks_in_other "OnUserState" _ _ refl, hooks_in_other "OnUserConnect" _ _ refl)

  hooks_in-connect_calls :
      (argument : Value) (user : MumbleUser) (known : MumbleClient)
      → (hooks_in "OnUserState" (connect_calls argument user known) ≡ 0)
        × (hooks_in "OnUserConnect" (connect_calls argument user known)
            ≡ (if not user.connected && known.synced then 1 else 0))
  unfolding connect_calls
  hooks_in-connect_calls argument user known =
      (hooks_in_other "OnUserState" _ _ refl, hooks_in_same "OnUserConnect" _ _ refl)

  hooks_in-state_calls :
      (copies : Copies) (user : MumbleUser) (known : MumbleClient)
      → (hooks_in "OnUserState" (state_calls new_ref state session copies user known) ≡ 1)
        × (hooks_in "OnUserConnect" (state_calls new_ref state session copies user known)
            ≡ (if not user.connected && known.synced then 1 else 0))
  unfolding state_calls
  hooks_in-state_calls copies user known =
      let (moves₁, moves₂) = hooks_in-channel_calls state.channel_id user known in
      let (joins₁, joins₂) = hooks_in-connect_calls _ user known in
      (
        hooks_in-three "OnUserState" _ _ _ moves₁ joins₁ refl,
        hooks_in-three "OnUserConnect" _ _ _ moves₂ joins₂ refl ∙ omega arith,
      )

  user_state_lem :
      (after : MumbleClient) (calls : List Call)
      → IsSound client
      → user_state new_ref state session client ≡ some (after, calls)
      → (after.users.table session
          ≡ some (changed_user state session (user_before new_ref session client)))
        × ((k : ℕ) → k ≢ session → after.users.table k ≡ client.users.table k)
        × (hooks_in "OnUserState" calls ≡ 1)
        × (hooks_in "OnUserConnect" calls ≡ (
            if not (user_before new_ref session client).connected && client.synced then 1 else 0))
  unfolding user_before user_get
  user_state_lem after calls h e =
      let (copies, e₁, e₂) = user_state_parts after calls e in
      let (known, found) = IsSound-user_get new_ref client h session in
      let (now, others) = table-update session (changed_user state session) _ _ found in
      let (states, connects) = hooks_in-state_calls copies _ _ in
      let users = users_after after calls e in
      (
        ap (λ u. u.table session) users ∙ now,
        λ k n.
            ap (λ u. u.table k) users
            ∙ others k n
            ∙ (mumble_user_get_lem _ client.users session h.users_kept.agreed).2 k n,
        ap (hooks_in "OnUserState") e₂ ∙ states,
        ap (hooks_in "OnUserConnect") e₂ ∙ connects,
      )

module _ (new_ref : ℕ → ℕ) (state : UserState) (session : ℕ) (client : MumbleClient) where
  as_user_state :
      {r : Outcome}
      → state.session ≡ some session
      → packet_user_state new_ref state client ≡ r
      → user_state new_ref state session client ≡ r
  unfolding packet_user_state needs
  as_user_state own e = sym (ap (λ o. needs o (user_state new_ref state) client) own) ∙ e

  -- Where the handler of a user's state returns, for a message with a session: the user of the session is
  -- the one that was known, or a new one, with the fields of the message, and no other session changes.
  -- `OnUserState` is called once; `OnUserConnect` is called once where the user was not connected and
  -- the client is synced, and else not at all.
  pub packet_user_state_changed :
      (after : MumbleClient) (calls : List Call)
      → IsSound client
      → state.session ≡ some session
      → packet_user_state new_ref state client ≡ some (after, calls)
      → (after.users.table session
          ≡ some (changed_user state session (user_before new_ref session client)))
        × ((k : ℕ) → k ≢ session → after.users.table k ≡ client.users.table k)
        × (hooks_in "OnUserState" calls ≡ 1)
        × (hooks_in "OnUserConnect" calls ≡ (
            if not (user_before new_ref session client).connected && client.synced then 1 else 0))
  packet_user_state_changed after calls h own e =
      user_state_lem new_ref state session client after calls h (as_user_state own e)

  user_before-found :
      (user : MumbleUser)
      → client.users.table session ≡ some user
      → user_before new_ref session client ≡ user
  unfolding user_before user_get
  user_before-found user e = ap (λ p. p.1) (mumble_user_get_found _ client.users session user e)

-- After a message about a user, the next one about the same user does not call `OnUserConnect`.
pub packet_user_state_connects_once :
    (new_ref : ℕ → ℕ) (state again : UserState) (session : ℕ) (client after last : MumbleClient)
    (calls later : List Call)
    → IsSound client
    → state.session ≡ some session
    → again.session ≡ some session
    → packet_user_state new_ref state client ≡ some (after, calls)
    → packet_user_state new_ref again after ≡ some (last, later)
    → hooks_in "OnUserConnect" later ≡ 0
unfolding changed_user IsSoundOutcome
packet_user_state_connects_once new_ref state again session client after last calls later h own₁
      own₂ e₁ e₂ =
    let (user, others, states, connects) =
      packet_user_state_changed new_ref state session client after calls h own₁ e₁ in
    let sound = subst IsSoundOutcome e₁ (IsSound-packet_user_state new_ref state client h) in
    let (user₂, others₂, states₂, connects₂) =
      packet_user_state_changed new_ref again session after last later sound own₂ e₂ in
    connects₂
    ∙ ap (λ u. if not u.connected && after.synced then 1 else 0)
        (user_before-found new_ref again session after _ user)
