-- ===== src/Tests/Voices.antt =====
-- A user who is heard, and a client that speaks; a hook whose functions return, fail or give values.
use lua_mumble.Base.{
  ℕ, List, [], ◌∷◌, none, some, Bool, true, false, pos, ◌==◌, if◌then◌else◌, ◌≡◌, refl, arith,
}
use lua_mumble.Client.Session.{MumbleClient}
use lua_mumble.Client.Session.Sound.{IsSound}
use lua_mumble.Client.Voice.{Opus, Frame, speaking_hooks}
use lua_mumble.Client.Voice.Turns.{voices, voices_turns, IsBalanced}
use lua_mumble.Client.Voice.Transmit.{Transmission, client_transmit, route}
use lua_mumble.Client.Voice.Transmit.Heard.{client_transmit_lem, header_of}
use lua_mumble.Varint.{set_bytes}
use lua_mumble.Client.Hooks.{
  find, or_empty, Returned, fails, gives, callback, Hooks, value, text, ran, undefined,
  mumble_hook_call,
}
use lua_mumble.Client.Hooks.Balance.{callees, mumble_hook_call_lem}
use lua_mumble.Client.Hooks.Failures.{mumble_hook_call_error}
use lua_mumble.Tests.Sessions.{new_client, new_client-IsSound, first_ref}

-- One number is below 9 and returns nothing, 9 fails, and 10 returns two values.
abbrev run : ℕ → List ℕ → Returned
run f args = if f == 9 then fails 77 else (if f == 10 then gives (5 ∷ 6 ∷ []) else gives [])

abbrev hooks : Hooks
hooks =
    (0, (1, callback 3) ∷ [])
    ∷ (1, (1, callback 4) ∷ (2, callback 5) ∷ [])
    ∷ (2, (1, callback 4) ∷ (2, callback 9) ∷ [])
    ∷ (3, (1, callback 10) ∷ [])
    ∷ []

mumble_hook_call_lem_example :
    mumble_hook_call run hooks true (8 ∷ []) 1 (value 8 ∷ text 2 ∷ [])
    ≡ ran 0 (text 2 ∷ []) (4 ∷ 5 ∷ [])
unfolding find or_empty callees
mumble_hook_call_lem_example =
    mumble_hook_call_lem run hooks (8 ∷ []) 1 (value 8 ∷ []) (text 2 ∷ []) refl
      (([], refl), (([], refl), tt))

mumble_hook_call_error_example :
    mumble_hook_call run hooks true (8 ∷ []) 2 (value 8 ∷ []) ≡ undefined
unfolding find or_empty callees
mumble_hook_call_error_example =
    mumble_hook_call_error run hooks (8 ∷ []) 2 (value 8 ∷ []) ((1, callback 4) ∷ []) [] 2 9 77 refl
      (([], refl), tt) refl (([], refl), tt)

abbrev opus : Opus
opus = record {
  nb_channels = λ packet. pos 1;
  bandwidth = λ packet. pos 1105;
  samples_per_frame = λ packet. pos 480;
}

-- A packet of a stream, or its last.
abbrev heard : Bool → Frame
heard speaking = record {
  codec = 4;
  target = 0;
  sequence = 12;
  speaking = speaking;
  payload = 1 ∷ 2 ∷ 3 ∷ [];
  context = none;
  opus_data = 1 ∷ 2 ∷ 3 ∷ [];
}

abbrev conversation : List (ℕ × Frame)
conversation = (5, heard true) ∷ (6, heard true) ∷ (5, heard true) ∷ (5, heard false) ∷ []

voices_turns_example :
    IsBalanced opus first_ref 5 new_client (voices opus first_ref conversation new_client)
    × IsSound (voices opus first_ref conversation new_client).0
voices_turns_example = voices_turns opus first_ref conversation 5 new_client new_client-IsSound

abbrev legacy_client : MumbleClient
legacy_client = record new_client { legacy = true }

abbrev transmission : Transmission
transmission = record { audio_target = 0; audio_sequence = 300; tcp_udp_tunnel = false }

abbrev voice_buffer : List ℕ
voice_buffer =
    0 ∷ 0 ∷ 0 ∷ 0 ∷ 0 ∷ 0 ∷ 0 ∷ 0 ∷ 0 ∷ 0 ∷ 0 ∷ 0 ∷ 0 ∷ 0 ∷ 0 ∷ 0 ∷ 0 ∷ 0 ∷ 0 ∷ 0 ∷ 0 ∷ 0 ∷ 0 ∷ 0
    ∷ []

client_transmit_lem_example :
    (rest : List ℕ) × (let frame : Frame = record {
      codec = 4;
      target = 0;
      sequence = 300;
      speaking = true;
      payload = 1 ∷ 2 ∷ 3 ∷ [];
      context = none;
      opus_data = 1 ∷ 2 ∷ 3 ∷ rest;
    } in
      client_transmit opus first_ref
        (λ audio. [])
        voice_buffer
        4
        (1 ∷ 2 ∷ 3 ∷ [])
        true
        transmission
        legacy_client
      ≡ some (
        record transmission { audio_sequence = 301 },
        route false (128 ∷ 129 ∷ 44 ∷ 3 ∷ 1 ∷ 2 ∷ 3 ∷ []),
        (speaking_hooks opus first_ref frame 7 legacy_client).0,
        (speaking_hooks opus first_ref frame 7 legacy_client).1,
      ))
unfolding set_bytes header_of
client_transmit_lem_example =
    client_transmit_lem opus first_ref (λ audio. []) voice_buffer (1 ∷ 2 ∷ 3 ∷ []) true transmission
      legacy_client refl (omega arith) (omega arith) (omega arith) (omega arith)
