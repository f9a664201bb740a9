-- ===== src/Client/Udp/Fallback.antt =====
-- mumble/mumble.c: when the voice goes through the TCP tunnel.
use lua_mumble.Base.{
  ◌^◌, zero, ℕ, suc, ◌<◌, List, ◌∷◌, ◌++◌, Option, some, leb, Bool, true, false, ◌≡◌, refl, ◌∙◌,
  arith,
}
use lua_mumble.Varint.{set_bytes}
use lua_mumble.Varint.RoundTrip.{get-set}
use lua_mumble.Client.Udp.{
  Link, ping_udp, update_ping_udp, handle_udp_packet, handle_legacy, udp_tcp_fallback,
}

-- So many pings in a row, with no answer between them.
unfoldable pub pings : ℕ → Link → Link
pings zero l = l
pings (suc n) l = (ping_udp true 0 (pings n l)).0

-- Pings without an answer: the third one turns the tunnel on, and it stays on.
pub pings_lem :
    (n : ℕ) (l : Link)
    → n < 256
    → l.udp_ping_acc ≡ 0
    → l.tcp_udp_tunnel ≡ false
    → ((pings n l).udp_ping_acc ≡ n) × ((pings n l).tcp_udp_tunnel ≡ leb 3 n)
unfolding pings ping_udp udp_tcp_fallback
pings_lem zero l h e f = (e, f)
pings_lem (suc n) l h e f = ground (arith, pings_lem n l)

-- An answer over UDP turns the tunnel off, and three more pings must stay without an answer before it
-- is on again; an answer through the tunnel leaves it as it is.
pub pong_lem :
    (timestamp n : ℕ) (l : Link)
    → n < 3
    → ((pings n (update_ping_udp timestamp true l).0).tcp_udp_tunnel ≡ false)
      × ((update_ping_udp timestamp false l).0.tcp_udp_tunnel ≡ l.tcp_udp_tunnel)
pong_lem timestamp n l h =
    let cleared : (update_ping_udp timestamp true l).0.tcp_udp_tunnel ≡ false =
      unfold update_ping_udp in ground arith in
    let (acc, tunnel) =
      pings_lem n (update_ping_udp timestamp true l).0 (omega arith)
        (unfold update_ping_udp in refl) cleared in
    (tunnel ∙ ground arith, unfold update_ping_udp in ground arith)

-- A legacy ping that the server sends back is handed on with the timestamp that it carries, whatever
-- follows it, and takes back the tunnel.
pub handle_ping_lem :
    (unpack_audio : List ℕ → Bool) (unpack_ping : List ℕ → Option ℕ) (timestamp : ℕ) (rest : List ℕ)
    (l : Link)
    → l.legacy ≡ true
    → timestamp < 2 ^ 64
    → handle_udp_packet unpack_audio unpack_ping (0x20 ∷ (set_bytes timestamp ++ rest)) true l
      ≡ some (update_ping_udp timestamp true l)
unfolding handle_udp_packet handle_legacy
handle_ping_lem unpack_audio unpack_ping timestamp rest l h k =
    rw h (rw (get-set timestamp 1 rest k) refl)
