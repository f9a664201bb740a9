-- ===== src/Client/Tcp/Frames.antt =====
-- mumble/mumble.c: which packets reach their handler.
use lua_mumble.Base.{
  ℕ, ◌<◌, List, [], ◌∷◌, Option, some, length, Bool, true, false, ◌≡◌, refl, arith, ltb, leb, ◌==◌,
  tests,
}
use lua_mumble.Client.Tcp.{
  MumblePacket, handled, pending, packet_reset, header_type, header_length, has_handler,
  read_event_copy, socket_read_event, setup, read_header, read_body, bytes_of,
}

-- What is read of a whole header, with a body of that length.
module _ (a b c d e f : ℕ) where
  abbrev pub header_bytes : List ℕ
  header_bytes = a ∷ b ∷ c ∷ d ∷ e ∷ f ∷ []

  known_type :
      has_handler (header_type header_bytes) ≡ true → leb 27 (header_type header_bytes) ≡ false
  unfolding has_handler
  known_type h = ground arith

  -- A packet that arrives whole in one event reaches the handler of its type with its body, if the
  -- type has a handler and the body is not empty. The client's packet is the one that is reset.
  pub whole_packet :
      (body : List ℕ) (saved : MumblePacket)
      → has_handler (header_type header_bytes) ≡ true
      → length body ≡ header_length header_bytes
      → 0 < length body
      → socket_read_event (some header_bytes) (some body) true (packet_reset saved)
        ≡ (packet_reset saved, handled (header_type header_bytes) body)
  unfolding socket_read_event read_event_copy packet_reset setup read_header read_body bytes_of
  whole_packet body saved h k l =
      let t_1 = known_type h in
      let t_2 : ltb 0 (header_length header_bytes) ≡ true = omega (tests, k) in
      let t_3 : (length body == header_length header_bytes) ≡ true = ground arith in
      rw t_1 (rw (t_2, t_3, h) refl)

  -- Whatever an event reads, the packet that the client keeps for the next event is the one it had:
  -- what was read of a packet that is not complete is lost.
  pub event_forgets :
      (got_header got_body : Option (List ℕ)) (allocated : Bool) (saved : MumblePacket)
      → (socket_read_event got_header got_body allocated saved).0 ≡ saved
  unfolding socket_read_event
  event_forgets got_header got_body allocated saved = refl

-- A body of length 0 reaches no handler, whatever its type: there is no read that would complete it.
pub empty_packet :
    (a b : ℕ) (got : Option (List ℕ)) (allocated : Bool) (saved : MumblePacket)
    → (socket_read_event (some (a ∷ b ∷ 0 ∷ 0 ∷ 0 ∷ 0 ∷ [])) got allocated (packet_reset saved)).1
      ≡ pending
unfolding socket_read_event read_event_copy packet_reset setup read_header read_body bytes_of
    header_length
empty_packet a b got allocated saved = ground arith

-- A header that comes in two parts is not put together: the second event takes its bytes for the
-- beginning of a header, so that both events end without a handler.
pub split_header :
    (a b c d e f : ℕ) (got : Option (List ℕ)) (allocated : Bool) (saved : MumblePacket)
    → let first = socket_read_event (some (a ∷ b ∷ c ∷ [])) got allocated (packet_reset saved) in
      (first.1 ≡ pending)
      × ((socket_read_event (some (d ∷ e ∷ f ∷ [])) got allocated first.0).1 ≡ pending)
unfolding socket_read_event read_event_copy packet_reset setup read_header read_body bytes_of
split_header a b c d e f got allocated saved = (refl, refl)
