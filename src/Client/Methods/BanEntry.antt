-- ===== src/Client/Methods/BanEntry.antt =====
-- mumble/banentry.c: an entry of the list of bans, which a script puts together. The
-- flag of the duration is never set, so that the duration is not sent.
use lua_mumble.Base.{ℕ, List, Option, none, some, Bool, String, ◌%◌, ◌^◌}
use lua_mumble.Client.Events.{lua_string, lua_pushinteger, given}
use lua_mumble.Client.Reports.Access.{mumble_push_address}
use lua_mumble.Client.Methods.{Result, pushes}

-- The fields that the methods set.
pub record BanEntry : Type 0 where
  pub address : List ℕ
  pub mask : ℕ
  pub name : Option (List ℕ)
  pub hash : Option (List ℕ)
  pub reason : Option (List ℕ)
  pub start : Option (List ℕ)
  pub duration : ℕ

pub mumble_banentry_new : List ℕ → ℕ → BanEntry
mumble_banentry_new address mask = record {
  address = address;
  mask = mask % 2 ^ 32;
  name = none;
  hash = none;
  reason = none;
  start = none;
  duration = 0;
}

pub banentry_set_address : List ℕ → BanEntry → BanEntry
banentry_set_address address entry = record entry { address = address }

pub banentry_set_mask : ℕ → BanEntry → BanEntry
banentry_set_mask mask entry = record entry { mask = mask % 2 ^ 32 }

pub banentry_set_name : List ℕ → BanEntry → BanEntry
banentry_set_name name entry = record entry { name = some name }

pub banentry_set_hash : List ℕ → BanEntry → BanEntry
banentry_set_hash hash entry = record entry { hash = some hash }

pub banentry_set_reason : List ℕ → BanEntry → BanEntry
banentry_set_reason reason entry = record entry { reason = some reason }

pub banentry_set_start : List ℕ → BanEntry → BanEntry
banentry_set_start start entry = record entry { start = some start }

pub banentry_set_duration : ℕ → BanEntry → BanEntry
banentry_set_duration duration entry = record entry { duration = duration % 2 ^ 32 }

module _ (inet_ntop : Bool → List ℕ → Option (List ℕ)) (format : String → List ℕ → List ℕ) where
  pub banentry_get_address : BanEntry → Result
  banentry_get_address entry = pushes (mumble_push_address inet_ntop format entry.address)

pub banentry_get_mask : BanEntry → Result
banentry_get_mask entry = pushes (lua_pushinteger entry.mask)

pub banentry_get_name : BanEntry → Result
banentry_get_name entry = pushes (given lua_string entry.name)

pub banentry_get_hash : BanEntry → Result
banentry_get_hash entry = pushes (given lua_string entry.hash)

pub banentry_get_reason : BanEntry → Result
banentry_get_reason entry = pushes (given lua_string entry.reason)

pub banentry_get_start : BanEntry → Result
banentry_get_start entry = pushes (given lua_string entry.start)

pub banentry_get_duration : BanEntry → Result
banentry_get_duration entry = pushes (lua_pushinteger entry.duration)
