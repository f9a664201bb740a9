-- ===== src/Client/Send/Framing.antt =====
-- mumble/packet.c and mumble/mumble.c: what is sent is what the other side reads.
use lua_mumble.Base.{
  ℕ, ◌+◌, ◌*◌, ◌/◌, ◌%◌, ◌^◌, ◌<◌, List, Option, some, true, ◌≡◌, refl, sym, ◌∙◌, ap, arith, length,
  take, drop, pos,
}
use lua_mumble.Client.Tcp.{
  MumblePacket, handled, packet_reset, header_type, header_length, has_handler, socket_read_event,
}
use lua_mumble.Client.Tcp.Frames.{whole_packet}
use lua_mumble.Client.Send.{has_packed_size, htons, htonl, packet_out, packet_sendex}

-- Division with the bytes.
bytes_4 :
    (n : ℕ)
    → n < 2 ^ 32
    → ((n / 2 ^ 24 % 256 * 256 + n / 2 ^ 16 % 256) * 256 + n / 256 % 256) * 256 + n % 256 ≡ n
bytes_4 n h = omega (arith, h)

bytes_2 : (n : ℕ) → n < 2 ^ 16 → n / 256 % 256 * 256 + n % 256 ≡ n
bytes_2 n h = omega (arith, h)

known_small : (t : ℕ) → has_packed_size t ≡ true → t < 2 ^ 16
unfolding has_packed_size
known_small t h = ground (arith, h)

packet_out_read :
    (type_of : ℕ) (body : List ℕ) (saved : MumblePacket)
    → type_of < 2 ^ 16
    → 0 < length body
    → length body < 2 ^ 32
    → has_handler type_of ≡ true
    → let bytes = packet_out type_of body in
      socket_read_event (some (take 6 bytes)) (some (drop 6 bytes)) true (packet_reset saved)
      ≡ (packet_reset saved, handled type_of body)
unfolding packet_out htons htonl header_type header_length
packet_out_read type_of body saved small some_body short handler =
    let n = length body in
    let type_read = bytes_2 type_of small in
    whole_packet (type_of / 256 % 256) (type_of % 256) (n / 2 ^ 24 % 256) (n / 2 ^ 16 % 256)
      (n / 256 % 256) (n % 256) body saved (ap has_handler type_read ∙ handler)
      (sym (bytes_4 n short)) some_body
    ∙ ap (λ t. (packet_reset saved, handled t body)) type_read

-- A message of a type that a client may send, whose packed form is not empty and shorter than 2^32 bytes:
-- the result is 0 where everything is written; and a reader to whom the bytes come as a header of six
-- bytes and the rest calls the handler of the type with the packed message, if it has one.
pub packet_sendex-socket_read_event :
    (ssl_write : List ℕ → Option ℕ) (type_of : ℕ) (body : List ℕ) (saved : MumblePacket)
    → has_packed_size type_of ≡ true
    → 0 < length body
    → length body < 2 ^ 32
    → (bytes : List ℕ) × ((packet_sendex ssl_write type_of body true).1 ≡ some bytes)
      × (ssl_write bytes ≡ some (length bytes)
          → (packet_sendex ssl_write type_of body true).0 ≡ pos 0)
      × (has_handler type_of ≡ true
          → socket_read_event (some (take 6 bytes)) (some (drop 6 bytes)) true (packet_reset saved)
            ≡ (packet_reset saved, handled type_of body))
unfolding packet_sendex
packet_sendex-socket_read_event ssl_write type_of body saved known some_body short = rw known (
  packet_out type_of body,
  refl,
  λ e. rw e (ground arith),
  packet_out_read type_of body saved (known_small type_of known) some_body short,
)
