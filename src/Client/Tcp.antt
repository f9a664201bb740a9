-- ===== src/Client/Tcp.antt =====
-- mumble/mumble.c: one read event of the TCP connection, which has at most one read of the header and
-- one of the body. The results of `SSL_read` are arguments: the bytes it gives, never more than were
-- asked for, or nothing where it returns 0 or less. `malloc` of the body is a flag.
pub mod Frames
use lua_mumble.Base.{
  ℕ, ◌+◌, ◌-◌, ◌*◌, ◌^◌, ◌&&◌, List, [], ◌∷◌, ◌++◌, Option, none, some, ltb, leb, ◌==◌,
  if◌then◌else◌, length, get_or, Bool, true, false,
}

-- `header` and `body` hold the bytes that were read so far, where they are not NULL.
pub record MumblePacket : Type 0 where
  pub type_of : ℕ
  pub length_of : ℕ
  pub header : Option (List ℕ)
  pub body : Option (List ℕ)

-- What an event does: it calls the handler of a type with a body, it goes to the error handler of
-- SSL, or neither.
pub data Result : Type 0 where
  handled : ℕ → List ℕ → Result
  failed : Result
  pending : Result

pub packet_reset : MumblePacket → MumblePacket
packet_reset p = record { type_of = 0; length_of = 0; header = none; body = none }

-- Six bytes: `ntohs` of the first two and `ntohl` of the other four.
unfoldable pub header_type : List ℕ → ℕ
header_type h = get_or h 0 0 * 256 + get_or h 1 0

unfoldable pub header_length : List ℕ → ℕ
header_length h = ((get_or h 2 0 * 256 + get_or h 3 0) * 256 + get_or h 4 0) * 256 + get_or h 5 0

-- The table has 27 entries; those of the client's own messages are NULL.
unfoldable pub has_handler : ℕ → Bool
has_handler t =
    if t == 2
    then false
    else if t == 17
    then false
    else if t == 19
    then false
    else if t == 23
    then false
    else ltb t 27

bytes_of : Option (List ℕ) → List ℕ
bytes_of none = []
bytes_of (some bytes) = bytes

-- A new packet is set up where there is no header.
setup : MumblePacket → MumblePacket
setup p = elim p.header [ none ↦ record p { header = some []; body = none } | some h ↦ p ]

-- The body is read once the header is complete.
read_body : Option (List ℕ) → MumblePacket → MumblePacket × Result
unfolding bytes_of
read_body got p =
    if length (bytes_of p.header) == 6 && ltb (length (bytes_of p.body)) p.length_of
    then elim got [
      | none ↦ (packet_reset p, failed)
      | some bytes ↦
          let body = bytes_of p.body ++ bytes in
          if length body == p.length_of
          then (packet_reset p, if has_handler p.type_of then handled p.type_of body else pending)
          else (record p { body = some body }, pending)
    ]
    else (p, pending)

-- The first part of an event, up to the body; the flag is false where the event ends there.
read_header : Option (List ℕ) → Bool → MumblePacket → MumblePacket × Bool × Result
unfolding bytes_of
read_header got allocated p =
    if ltb (length (bytes_of p.header)) 6
    then elim got [
      | none ↦ (packet_reset p, false, failed)
      | some bytes ↦
          let header = bytes_of p.header ++ bytes in
          let q = record p { header = some header } in
          if length header == 6
          then (if leb 27 (header_type header)
              then (packet_reset q, false, pending)
              else if allocated
              then (
                record q {
                  type_of = header_type header;
                  length_of = header_length header;
                  body = some [];
                },
                true,
                pending,
              )
              else (packet_reset q, false, pending))
          else (q, true, pending)
    ]
    else (p, true, pending)

-- The packet is a copy of the client's, which is not written back: the second part of the result is
-- the copy as the event leaves it, and the client keeps `saved`.
pub read_event_copy :
    Option (List ℕ) → Option (List ℕ) → Bool → MumblePacket → MumblePacket × Result
unfolding setup read_header read_body
read_event_copy got_header got_body allocated saved =
    let (p, on, result) = read_header got_header allocated (setup saved) in
    if on then read_body got_body p else (p, result)

pub socket_read_event :
    Option (List ℕ) → Option (List ℕ) → Bool → MumblePacket → MumblePacket × Result
unfolding read_event_copy
socket_read_event got_header got_body allocated saved =
    (saved, (read_event_copy got_header got_body allocated saved).1)
