-- ===== src/Tests/Timers.antt =====
-- A libuv handle that is only its flags, and a timer that was started before.
use lua_mumble.Base.{ℕ, [], ◌∷◌, some, none, Bool, true, false, ◌≡◌, ◌≢◌, refl, arith}
use lua_mumble.Timer.{Libuv, Timer, start}
use lua_mumble.Timer.Laws.{IsHeld, IsLibuv, start_lem}

record Handle : Type 0 where
  active : Bool
  closing : Bool
  repeat : ℕ

abbrev handles : Libuv Handle
handles = record {
  timer_init = record { active = false; closing = false; repeat = 0 };
  timer_start = λ h after repeat. record h { active = true; repeat = repeat };
  timer_stop = λ h. record h { active = false };
  timer_again = λ h. some (record h { active = true });
  timer_set_repeat = λ h repeat. record h { repeat = repeat };
  timer_get_repeat = λ h. h.repeat;
  is_active = λ h. h.active;
  is_closing = λ h. h.closing;
  close = λ h. record h { active = false; closing = true };
}

handles-IsLibuv : IsLibuv handles
handles-IsLibuv = record {
  close_closing = λ h. refl;
  stop_active = λ h. refl;
  stop_closing = λ h. refl;
  start_active = λ h after repeat e. refl;
}

-- A timer that runs with a repeat, and has its callback at 7 and itself at 6.
abbrev running : Timer Handle
running = record {
  after = 10;
  count = 3;
  closed = false;
  paused = false;
  self = some 6;
  callback = some 7;
  handle = record { active = true; closing = false; repeat = 20 };
  refs = 7 ∷ 6 ∷ [];
}

running-IsHeld : IsHeld running
running-IsHeld = record { registry = refl; together = λ (e : some 6 ≡ none). ground (arith, e) }

start_lem_example :
    (t' : Timer Handle) × (start handles 8 9 100 200 running ≡ some t')
    × IsHeld t'
    × (t'.callback ≡ some 9)
    × (t'.self ≢ none)
    × (t'.handle.active ≡ true)
    × (t'.count ≡ 0)
    × (t'.paused ≡ false)
start_lem_example = start_lem handles handles-IsLibuv 8 9 100 200 running running-IsHeld refl refl
