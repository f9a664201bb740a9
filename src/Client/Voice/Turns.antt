-- ===== src/Client/Voice/Turns.antt =====
-- mumble/mumble.c: starts and stops of speaking take turns.
use lua_mumble.Base.{
  ℕ, ◌+◌, List, [], ◌∷◌, ◌++◌, Bool, true, false, ◌&&◌, ◌==◌, ◌≡◌, ◌≢◌, inl, inr, refl, sym, ap,
  ◌∙◌, arith, Bool-cases, ==_iff, String,
}
use text.Mathlib.Text.{◌==◌ as str_eq}
use lua_mumble.Client.Events.Laws.{mumble_user_raw_get-some}
use lua_mumble.Client.Users.Agree.{mumble_user_get_lem}
use lua_mumble.Client.Users.Kept.{speaking_of, mumble_user_get_speaking}
use lua_mumble.Client.Session.Objects.{table-update}
use lua_mumble.Client.Session.Sound.{IsSound, IsSound-user_get, IsSound-change_user}
use lua_mumble.Client.Events.{
  lua_nil, lua_boolean, lua_integer, lua_number, lua_string, lua_channel, lua_table, Value, Call,
  mumble_user_raw_get, lua_user,
}
use lua_mumble.Client.Session.{MumbleClient, user_get, change_user}
use lua_mumble.Client.Voice.{
  Opus, Frame, starts, stops, is_one_frame, is_changed, call_if, set_speaking, speaking_calls,
  speaking_hooks, speak_event,
}

unfoldable pub is_user : ℕ → Value → Bool
is_user k (lua_user session) = session == k
is_user k lua_nil = false
is_user k (lua_boolean b) = false
is_user k (lua_integer i) = false
is_user k (lua_number d) = false
is_user k (lua_string s) = false
is_user k (lua_channel channel_id) = false
is_user k (lua_table t) = false

unfoldable pub flag : Bool → ℕ
flag false = 0
flag true = 1

-- How often a hook is called for the user of a session.
unfoldable pub hook_count : String → ℕ → List Call → ℕ
unfolding is_user flag
hook_count hook k [] = 0
hook_count hook k (call ∷ rest) =
    flag (str_eq call.hook hook && is_user k call.argument) + hook_count hook k rest

hook_count-append :
    (hook : String) (k : ℕ) (before after : List Call)
    → hook_count hook k (before ++ after) ≡ hook_count hook k before + hook_count hook k after
unfolding hook_count
hook_count-append hook k [] after = omega arith
hook_count-append hook k (call ∷ rest) after = omega (arith, hook_count-append hook k rest after)

-- The counts of a call that is made or not.
call_if-count :
    (b : Bool) (hook made : String) (k session : ℕ)
    → hook_count hook k (call_if b made (lua_user session))
      ≡ flag (b && (str_eq made hook && session == k))
unfolding hook_count call_if is_user flag
call_if-count true hook made k session = omega arith
call_if-count false hook made k session = refl

and_false : (b : Bool) → flag (b && false) ≡ 0
unfolding flag
and_false true = refl
and_false false = refl

module _ (opus : Opus) (new_ref : ℕ → ℕ) where
  -- The calls of a packet, counted for a user.
  calls_count :
      (was : Bool) (frame : Frame) (session k : ℕ)
      → let calls = speaking_calls opus new_ref was frame (lua_user session) in
        (hook_count "OnUserStartSpeaking" k calls
          ≡ flag (starts was frame.speaking && session == k))
        × (hook_count "OnUserStopSpeaking" k calls
            ≡ flag (stops was frame.speaking && session == k))
  unfolding speaking_calls hook_count is_user flag speak_event
  calls_count was frame session k =
      let start = call_if (starts was frame.speaking) "OnUserStartSpeaking" (lua_user session) in
      let stop = call_if (stops was frame.speaking) "OnUserStopSpeaking" (lua_user session) in
      let speak : Call = record {
        hook = "OnUserSpeak";
        argument = speak_event opus new_ref frame (lua_user session);
      } in
      (
        omega (
          arith,
          hook_count-append "OnUserStartSpeaking" k start (speak ∷ stop),
          call_if-count (starts was frame.speaking) "OnUserStartSpeaking" "OnUserStartSpeaking" k
              session,
          call_if-count (stops was frame.speaking) "OnUserStartSpeaking" "OnUserStopSpeaking" k
              session,
          and_false (stops was frame.speaking),
        ),
        omega (
          arith,
          hook_count-append "OnUserStopSpeaking" k start (speak ∷ stop),
          call_if-count (starts was frame.speaking) "OnUserStopSpeaking" "OnUserStartSpeaking" k
              session,
          call_if-count (stops was frame.speaking) "OnUserStopSpeaking" "OnUserStopSpeaking" k
              session,
          and_false (starts was frame.speaking),
        ),
      )

  -- The user of the session is known and speaks or not as the packet says, no other user changes, and the hooks
  -- are those for how it was before.
  pub speaking_hooks_lem :
      (frame : Frame) (session : ℕ) (client : MumbleClient)
      → IsSound client
      → let (after, calls) = speaking_hooks opus new_ref frame session client in
        IsSound after
        × (speaking_of (after.users.table session) ≡ frame.speaking)
        × ((k : ℕ) → k ≢ session → after.users.table k ≡ client.users.table k)
        × (calls
            ≡ speaking_calls opus new_ref
                (speaking_of (client.users.table session))
                frame
                (lua_user session))
  unfolding speaking_hooks set_speaking change_user user_get
  speaking_hooks_lem frame session client h =
      let (known, user) = user_get new_ref session client in
      let (sound, found) = IsSound-user_get new_ref client h session in
      let (here, others) =
        table-update session (set_speaking frame.speaking) known.users user found in
      (
        IsSound-change_user known sound session (set_speaking frame.speaking) (λ u own. own),
        ap speaking_of here,
        λ k n.
            (table-update session (set_speaking frame.speaking) known.users user found).1 k n
            ∙ (mumble_user_get_lem (new_ref client.refs) client.users session h.users_kept.agreed).2
                k n,
        ap
              (λ w. speaking_calls opus new_ref w frame (
                mumble_user_raw_get (change_user session (set_speaking frame.speaking) known).users
                  session))
              (mumble_user_get_speaking (new_ref client.refs) client.users session)
            ∙ ap (speaking_calls opus new_ref (speaking_of (client.users.table session)) frame)
                (mumble_user_raw_get-some _ session _ here),
      )

  -- Packets of users, one after the other.
  pub voices : List (ℕ × Frame) → MumbleClient → MumbleClient × List Call
  voices [] client = (client, [])
  voices ((session, frame) ∷ rest) client =
      let (next, calls) = speaking_hooks opus new_ref frame session client in
      let (last, more) = voices rest next in (last, calls ++ more)

  -- The balance of starts and stops over one packet.
  abbrev pub IsBalanced : ℕ → MumbleClient → MumbleClient × List Call → Type 0
  IsBalanced k before (after, calls) =
      hook_count "OnUserStartSpeaking" k calls + flag (speaking_of (before.users.table k))
      ≡ hook_count "OnUserStopSpeaking" k calls + flag (speaking_of (after.users.table k))

  balance :
      (was now : Bool)
      → flag (starts was now && true) + flag was ≡ flag (stops was now && true) + flag now
  unfolding starts stops is_one_frame is_changed flag
  balance true true = omega arith
  balance true false = omega arith
  balance false true = omega arith
  balance false false = omega arith

  speaking_hooks-IsBalanced :
      (k session : ℕ) (frame : Frame) (client : MumbleClient)
      → IsSound client
      → IsBalanced k client (speaking_hooks opus new_ref frame session client)
  speaking_hooks-IsBalanced k session frame client h =
      let (sound, speaks, others, calls) = speaking_hooks_lem frame session client h in
      let was = speaking_of (client.users.table session) in
      let (started, stopped) = calls_count was frame session k in
      let after = (speaking_hooks opus new_ref frame session client).0 in
      let first = ap (hook_count "OnUserStartSpeaking" k) calls ∙ started in
      let second = ap (hook_count "OnUserStopSpeaking" k) calls ∙ stopped in
      elim (Bool-cases (session == k)) [
        | inl same ↦
            let here : session ≡ k = (==_iff session k).0 same in
            omega (
              arith,
              first,
              second,
              ap (λ b. flag (starts was frame.speaking && b)) same,
              ap (λ b. flag (stops was frame.speaking && b)) same,
              balance was frame.speaking,
              ap (λ j. flag (speaking_of (client.users.table j))) here,
              ap (λ j. flag (speaking_of (after.users.table j))) here,
              ap flag speaks,
            )
        | inr other ↦
            let elsewhere : k ≢ session = λ e. cc (other, (==_iff session k).1 (sym e)) in
            omega (
              arith,
              first,
              second,
              ap (λ b. flag (starts was frame.speaking && b)) other,
              ap (λ b. flag (stops was frame.speaking && b)) other,
              and_false (starts was frame.speaking),
              and_false (stops was frame.speaking),
              ap (λ u. flag (speaking_of u)) (others k elsewhere),
            )
      ]

  -- For every user, whatever packets of whichever users come: the calls of OnUserStartSpeaking and of
  -- OnUserStopSpeaking are equally many, but for one if the user speaks before or after. The client stays sound.
  pub voices_turns :
      (events : List (ℕ × Frame)) (k : ℕ) (client : MumbleClient)
      → IsSound client
      → IsBalanced k client (voices events client) × IsSound (voices events client).0
  unfolding voices hook_count
  voices_turns [] k client h = (refl, h)
  voices_turns ((session, frame) ∷ rest) k client h =
      let (sound, speaks, others, same) = speaking_hooks_lem frame session client h in
      let (next, calls) = speaking_hooks opus new_ref frame session client in
      let (last, more) = voices rest next in
      let (balanced, kept) = voices_turns rest k next sound in
      (
        omega (
          arith,
          speaking_hooks-IsBalanced k session frame client h,
          balanced,
          hook_count-append "OnUserStartSpeaking" k calls more,
          hook_count-append "OnUserStopSpeaking" k calls more,
        ),
        kept,
      )
