-- ===== src/Client/Reports/Stats.antt =====
-- mumble/packet.c: the report on a user's connection. `truncated` is the conversion of a float to
-- `lua_Integer`; the parameters of an address are those of `mumble_push_address`.
use lua_mumble.Base.{ℕ, ◌∷◌, List, [], Option, none, some, Bool, ℤ, String}
use lua_mumble.Client.Users.{Known, MumbleUser}
use lua_mumble.Client.Events.{
  Value, lua_boolean, lua_integer, lua_string, Call, event, lua_pushinteger, given, array,
  mumble_user_raw_get,
}
use lua_mumble.Client.Reports.Access.{mumble_push_address}

pub record PacketCounts : Type 0 where
  pub good : Option ℕ
  pub late : Option ℕ
  pub lost : Option ℕ
  pub resync : Option ℕ

pub record Version : Type 0 where
  pub version_v1 : Option ℕ
  pub version_v2 : Option ℕ
  pub release : Option (List ℕ)
  pub os : Option (List ℕ)
  pub os_version : Option (List ℕ)

pub record RollingStats : Type 0 where
  pub time_window : Option ℕ
  pub from_client : Option PacketCounts
  pub from_server : Option PacketCounts

-- A float is its bits.
pub record UserStats : Type 0 where
  pub session : Option ℕ
  pub stats_only : Option Bool
  pub certificates : List (List ℕ)
  pub from_client : Option PacketCounts
  pub from_server : Option PacketCounts
  pub udp_packets : Option ℕ
  pub tcp_packets : Option ℕ
  pub udp_ping_avg : Option ℕ
  pub udp_ping_var : Option ℕ
  pub tcp_ping_avg : Option ℕ
  pub tcp_ping_var : Option ℕ
  pub version : Option Version
  pub celt_versions : List ℤ
  pub address : Option (List ℕ)
  pub bandwidth : Option ℕ
  pub onlinesecs : Option ℕ
  pub idlesecs : Option ℕ
  pub strong_certificate : Option Bool
  pub opus : Option Bool
  pub rolling_stats : Option RollingStats

unfoldable pub packet_counts : PacketCounts → Value
packet_counts stats = event (
    ("good", given lua_pushinteger stats.good)
    ∷ ("late", given lua_pushinteger stats.late)
    ∷ ("lost", given lua_pushinteger stats.lost)
    ∷ ("resync", given lua_pushinteger stats.resync)
    ∷ [])

-- A count that the message does not have is its default, 0.
unfoldable pub count_of : Option ℕ → Value
count_of none = lua_pushinteger 0
count_of (some n) = lua_pushinteger n

unfoldable pub rolling_counts : PacketCounts → Value
unfolding count_of
rolling_counts stats = event (
    ("good", count_of stats.good)
    ∷ ("late", count_of stats.late)
    ∷ ("lost", count_of stats.lost)
    ∷ ("resync", count_of stats.resync)
    ∷ [])

unfoldable pub version_table : Version → Value
version_table version = event (
    ("version_v1", given lua_pushinteger version.version_v1)
    ∷ ("version_v2", given lua_pushinteger version.version_v2)
    ∷ ("release", given lua_string version.release)
    ∷ ("os", given lua_string version.os)
    ∷ ("os_version", given lua_string version.os_version)
    ∷ [])

unfoldable pub rolling_table : RollingStats → Value
unfolding rolling_counts
rolling_table stats = event (
    ("time_window", given lua_pushinteger stats.time_window)
    ∷ ("from_client", given rolling_counts stats.from_client)
    ∷ ("from_server", given rolling_counts stats.from_server)
    ∷ [])

module _ (truncated : ℕ → ℤ) (inet_ntop : Bool → List ℕ → Option (List ℕ))
    (format : String → List ℕ → List ℕ) where
  push_float : ℕ → Value
  push_float f = lua_integer (truncated f)

  pub packet_user_stats : Known MumbleUser → UserStats → Call
  unfolding push_float packet_counts version_table rolling_table
  packet_user_stats users stats = record {
    hook = "OnUserStats";
    argument = event (
        ("user", given (mumble_user_raw_get users) stats.session)
        ∷ ("stats_only", given lua_boolean stats.stats_only)
        ∷ ("certificates", array lua_string stats.certificates)
        ∷ ("from_client", given packet_counts stats.from_client)
        ∷ ("from_server", given packet_counts stats.from_server)
        ∷ ("udp_packets", given lua_pushinteger stats.udp_packets)
        ∷ ("tcp_packets", given lua_pushinteger stats.tcp_packets)
        ∷ ("udp_ping_avg", given push_float stats.udp_ping_avg)
        ∷ ("udp_ping_var", given push_float stats.udp_ping_var)
        ∷ ("tcp_ping_avg", given push_float stats.tcp_ping_avg)
        ∷ ("tcp_ping_var", given push_float stats.tcp_ping_var)
        ∷ ("version", given version_table stats.version)
        ∷ ("celt_versions", array lua_integer stats.celt_versions)
        ∷ ("address", given (mumble_push_address inet_ntop format) stats.address)
        ∷ ("bandwidth", given lua_pushinteger stats.bandwidth)
        ∷ ("onlinesecs", given lua_pushinteger stats.onlinesecs)
        ∷ ("idlesecs", given lua_pushinteger stats.idlesecs)
        ∷ ("strong_certificate", given lua_boolean stats.strong_certificate)
        ∷ ("opus", given lua_boolean stats.opus)
        ∷ ("rolling_stats", given rolling_table stats.rolling_stats)
        ∷ []);
  }
