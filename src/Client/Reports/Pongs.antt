-- ===== src/Client/Reports/Pongs.antt =====
-- mumble/packet.c, `packet_server_ping`. The clock and the running averages are floating-point numbers of the
-- client, which are an argument: the time that the ping took, the average and the deviation.
use lua_mumble.Base.{ℕ, [], ◌∷◌, Option}
use lua_mumble.Client.Events.{
  Value, Double, whole, bits, lua_number, Call, event, lua_pushinteger, given,
}

-- The floats of the message are their bits.
pub record Ping : Type 0 where
  pub timestamp : Option ℕ
  pub good : Option ℕ
  pub late : Option ℕ
  pub lost : Option ℕ
  pub resync : Option ℕ
  pub udp_packets : Option ℕ
  pub tcp_packets : Option ℕ
  pub udp_ping_avg : Option ℕ
  pub udp_ping_var : Option ℕ
  pub tcp_ping_avg : Option ℕ
  pub tcp_ping_var : Option ℕ

pub record Times : Type 0 where
  pub time : Double
  pub average : Double
  pub deviation : Double

pub packet_server_ping : (ℕ → Times) → Ping → Call
packet_server_ping update_ping_tcp ping =
    let count : ℕ → Value = λ n. lua_number (whole n) in
    let float : ℕ → Value = λ n. lua_number (bits n) in
    record {
      hook = "OnPongTCP";
      argument = event (
          ("timestamp", given lua_pushinteger ping.timestamp)
          ∷ ("ping", given (λ t. lua_number (update_ping_tcp t).time) ping.timestamp)
          ∷ ("average", given (λ t. lua_number (update_ping_tcp t).average) ping.timestamp)
          ∷ ("deviation", given (λ t. lua_number (update_ping_tcp t).deviation) ping.timestamp)
          ∷ ("good", given count ping.good)
          ∷ ("late", given count ping.late)
          ∷ ("lost", given count ping.lost)
          ∷ ("resync", given count ping.resync)
          ∷ ("udp_packets", given count ping.udp_packets)
          ∷ ("tcp_packets", given count ping.tcp_packets)
          ∷ ("udp_ping_avg", given float ping.udp_ping_avg)
          ∷ ("udp_ping_var", given float ping.udp_ping_var)
          ∷ ("tcp_ping_avg", given float ping.tcp_ping_avg)
          ∷ ("tcp_ping_var", given float ping.tcp_ping_var)
          ∷ []);
    }
