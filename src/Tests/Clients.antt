-- ===== src/Tests/Clients.antt =====
-- A client with two users, its link, and packets of the server.
use lua_mumble.Client.CryptSetup.{bin_to_strhex}
use lua_mumble.Client.CryptSetup.Resync.{from_strhex, bin_to_strhex_lem}
use lua_mumble.Base.{
  length, ℕ, ◌*◌, ◌≤◌, List, [], ◌∷◌, some, none, true, false, replicate, ◌≡◌, ◌⊎◌, refl, arith,
}
use lua_mumble.Links.{LinkNode, list_get}
use lua_mumble.Links.Laws.{copies}
use lua_mumble.Client.Udp.{Link}
use lua_mumble.Client.Udp.Fallback.{pings, pings_lem}
use lua_mumble.Client.Tcp.{
  MumblePacket, handled, pending, packet_reset, header_type, header_length, has_handler,
  socket_read_event,
}
use lua_mumble.Client.Tcp.Frames.{whole_packet, split_header}
use lua_mumble.Client.Users.{MumbleUser, Known}
use lua_mumble.Client.Users.Agree.{IsAgreed}
use lua_mumble.Client.Bandwidth.{network_bandwidth, adjust_audio_bandwidth}
use lua_mumble.Client.Bandwidth.Limits.{adjust_lem}
use lua_mumble.Client.CryptSetup.{Setup, packet_crypt_setup}
use lua_mumble.Client.CryptSetup.Resync.{packet_crypt_setup_keys}
use lua_mumble.Crypt.State.{init}

abbrev two_nodes : List (LinkNode ℕ)
two_nodes = record { index = 3; data_of = 30 } ∷ record { index = 4; data_of = 40 } ∷ []

abbrev link : Link
link = record { legacy = true; udp_ping_acc = 0; udp_packets = 5; tcp_udp_tunnel = false }

pings_lem_example : ((pings 3 link).udp_ping_acc ≡ 3) × ((pings 3 link).tcp_udp_tunnel ≡ true)
pings_lem_example = pings_lem 3 link (omega arith) refl refl

abbrev idle : MumblePacket
idle = record { type_of = 0; length_of = 0; header = none; body = none }

-- A ping of two bytes.
whole_packet_example :
    socket_read_event
      (some (0 ∷ 3 ∷ 0 ∷ 0 ∷ 0 ∷ 2 ∷ []))
      (some (8 ∷ 1 ∷ []))
      true
      (packet_reset idle)
    ≡ (packet_reset idle, handled (header_type (0 ∷ 3 ∷ 0 ∷ 0 ∷ 0 ∷ 2 ∷ [])) (8 ∷ 1 ∷ []))
whole_packet_example =
    whole_packet 0 3 0 0 0 2 (8 ∷ 1 ∷ []) idle (unfold has_handler header_type in refl)
      (unfold header_length in omega arith) (omega arith)

split_header_example :
    let first = socket_read_event (some (0 ∷ 3 ∷ 0 ∷ [])) none true (packet_reset idle) in
    (first.1 ≡ pending)
    × ((socket_read_event (some (0 ∷ 0 ∷ 2 ∷ [])) none true first.0).1 ≡ pending)
split_header_example = split_header 0 3 0 0 0 2 none true idle

abbrev nobody : Known MumbleUser
nobody = record { table = λ (k : ℕ). none; list = [] }

nobody-IsAgreed : IsAgreed nobody
nobody-IsAgreed = record {
  same = λ k. unfold list_get in refl;
  once = λ k. unfold copies in omega arith;
}

adjust_lem_example :
    (frames bitrate kept : ℕ) × (adjust_audio_bandwidth 20 48000 96000
      ≡ some (kept, bitrate, frames * 10))
    × (8000 ≤ bitrate)
    × ((bitrate ≡ 8000) ⊎ (network_bandwidth bitrate frames ≤ 48000))
adjust_lem_example = adjust_lem 20 48000 96000 (omega arith) (omega arith)

bin_to_strhex_lem_example :
    (from_strhex (bin_to_strhex (171 ∷ 5 ∷ [])) ≡ 171 ∷ 5 ∷ [])
    × (length (bin_to_strhex (171 ∷ 5 ∷ [])) ≡ 4)
bin_to_strhex_lem_example = bin_to_strhex_lem (171 ∷ 5 ∷ []) (omega arith, (omega arith, tt))

abbrev ones : List ℕ
ones = replicate 16 1

packet_crypt_setup_keys_example :
    let sent : Setup = record {
      key = some ones;
      client_nonce = some ones;
      server_nonce = some ones;
    } in
    let (c', n', reply) = packet_crypt_setup sent init 0 in
    (reply.pings ≡ true)
    × (c'.raw_key ≡ ones)
    × (c'.encrypt_iv ≡ ones)
    × (c'.decrypt_iv ≡ ones)
    × (n' ≡ 0)
packet_crypt_setup_keys_example = packet_crypt_setup_keys ones ones ones init 0 refl refl refl
