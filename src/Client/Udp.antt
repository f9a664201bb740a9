-- ===== src/Client/Udp.antt =====
-- mumble/mumble.c: pings and voice over UDP, and the fallback to a tunnel through TCP. The running
-- averages of the ping are floating point and left out. What the code sends or hands to Lua and to the
-- voice handlers is a list of actions. Unpacking a protobuf message is an argument.
pub mod Fallback
use lua_mumble.Base.{
  ℕ, suc, ◌+◌, ◌%◌, ◌^◌, ◌&&◌, not, List, [], ◌∷◌, ◌++◌, Option, none, some, leb, ◌==◌,
  if◌then◌else◌, u8, u32, ◌>>◌, ◌>>=◌, bit_and, get_elem?, drop, Bool, true, false,
}
use lua_mumble.Varint.{util_get_varint}

pub record Link : Type 0 where
  pub legacy : Bool
  pub udp_ping_acc : ℕ
  pub udp_packets : ℕ
  pub tcp_udp_tunnel : Bool

pub data Action : Type 0 where
  ping_legacy : ℕ → Action
  ping_protobuf : ℕ → Action
  hook_ping : ℕ → Action
  hook_pong : ℕ → Action
  -- The rest of the packet, the kind of voice, the target and the session as a 32-bit word.
  voice_legacy : List ℕ → ℕ → ℕ → ℕ → Action
  voice_protobuf : List ℕ → Action

udp_tcp_fallback : ℕ
udp_tcp_fallback = 2

-- `timestamp` is the one that the ping carries.
pub ping_udp : Bool → ℕ → Link → Link × List Action
unfolding udp_tcp_fallback
ping_udp crypt_valid timestamp l =
    if crypt_valid
    then (
      record l {
        tcp_udp_tunnel =
            if leb udp_tcp_fallback l.udp_ping_acc && not l.tcp_udp_tunnel
            then true
            else l.tcp_udp_tunnel;
        udp_ping_acc = u8 (suc l.udp_ping_acc);
      },
      (if l.legacy then ping_legacy timestamp else ping_protobuf timestamp)
          ∷ hook_ping timestamp
          ∷ [],
    )
    else (l, [])

pub update_ping_udp : ℕ → Bool → Link → Link × List Action
update_ping_udp timestamp udp l = (
  record l {
    udp_packets = u32 (suc l.udp_packets);
    tcp_udp_tunnel = if l.tcp_udp_tunnel && udp then false else l.tcp_udp_tunnel;
    udp_ping_acc = 0;
  },
  hook_pong timestamp ∷ [],
)

-- The kinds of packets in the upper three bits of a legacy header.
is_voice : ℕ → Bool
is_voice id = if id == 4 then true else if id == 2 then true else if id == 0 then true else id == 3

handle_legacy : List ℕ → ℕ → Bool → Link → Option (Link × List Action)
unfolding is_voice
handle_legacy unencrypted header udp l =
    let id = bit_and (header >> 5) 0x7 in
    if id == 1
    then (do
      (timestamp, read) ← util_get_varint (drop 1 unencrypted) 1
      some (update_ping_udp timestamp udp l))
    else if is_voice id
    then (do
      (session, read) ← util_get_varint (drop 1 unencrypted) 1
      some (l, voice_legacy (drop read unencrypted) id (header >> 0x1f) (u32 session) ∷ []))
    else some (l, [])

module _ (unpack_audio : List ℕ → Bool) (unpack_ping : List ℕ → Option ℕ) where
  handle_protobuf : List ℕ → ℕ → Bool → Link → Link × List Action
  handle_protobuf unencrypted header udp l =
      if header == 0
      then (
        l,
        if unpack_audio (drop 1 unencrypted) then voice_protobuf (drop 1 unencrypted) ∷ [] else [],
      )
      else if header == 1
      then elim (unpack_ping (drop 1 unencrypted)) [
        | some timestamp ↦ update_ping_udp timestamp udp l
        | none ↦ (l, [])
      ]
      else (l, [])

  unfoldable pub handle_udp_packet : List ℕ → Bool → Link → Option (Link × List Action)
  unfolding handle_legacy handle_protobuf
  handle_udp_packet unencrypted udp l = do
    header ← get_elem? unencrypted 0
    if l.legacy
        then handle_legacy unencrypted header udp l
        else some (handle_protobuf unencrypted header udp l)
