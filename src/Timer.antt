-- ===== src/Timer.antt =====
-- mumble/timer.c: a Lua timer on top of a libuv timer. libuv's handle is an argument (`Libuv`), and so
-- is the number that `luaL_ref` picks. A Lua number of seconds is given by its milliseconds. `none`
-- stands for a Lua error, which every method raises before it changes anything. The functions that
-- only print or push a field are left out.
pub mod Laws
use lua_mumble.Base.{
  ℕ, u32, ◌/◌, List, [], ◌∷◌, Option, none, some, Bool, true, false, ◌==◌, if◌then◌else◌, suc, not,
  ◌&&◌,
}
use lua_mumble.Registry.{unref}

-- A timer handle of libuv, with its functions; `none` is UV_EINVAL.
pub record Libuv (H : Type 0) : Type 0 where
  pub timer_init : H
  pub timer_start : H → ℕ → ℕ → H
  pub timer_stop : H → H
  pub timer_again : H → Option H
  pub timer_set_repeat : H → ℕ → H
  pub timer_get_repeat : H → ℕ
  pub is_active : H → Bool
  pub is_closing : H → Bool
  pub close : H → H

-- `self` and `callback` are references in the registry, `none` for LUA_NOREF. `refs` is what the
-- registry MUMBLE_TIMER_REG holds for this timer.
pub record Timer (H : Type 0) : Type 0 where
  pub after : ℕ
  pub count : ℕ
  pub closed : Bool
  pub paused : Bool
  pub self : Option ℕ
  pub callback : Option ℕ
  pub handle : H
  pub refs : List ℕ

held_ref : Option ℕ → ℕ → ℕ
held_ref none r = r
held_ref (some s) r = s

add_ref : Option ℕ → ℕ → List ℕ → List ℕ
add_ref none r refs = r ∷ refs
add_ref (some s) r refs = refs

module _ {H : Type 0} where
  unref_callback : Timer H → Timer H
  unref_callback t = record t { callback = none; refs = unref t.callback t.refs }

  unref_self : Timer H → Timer H
  unref_self t = record t { self = none; refs = unref t.self t.refs }

  -- Both fields are left alone where there is nothing to release.
  pub on_close : Timer H → Timer H
  on_close t = unref_self (unref_callback t)

  -- The timer is referenced where it is not yet.
  ref_self : ℕ → Timer H → Timer H
  ref_self r t = record t { self = some (held_ref t.self r); refs = add_ref t.self r t.refs }

  ref_callback : ℕ → Timer H → Timer H
  ref_callback r t = record t { callback = some r; refs = r ∷ t.refs }

module _ {H : Type 0} (uv : Libuv H) where
  pub new : Timer H
  new = record {
    after = 0;
    count = 0;
    closed = false;
    paused = false;
    self = none;
    callback = none;
    handle = uv.timer_init;
    refs = [];
  }

  -- `uv_close` runs `mumble_timer_on_close` in a later turn of the event loop, which `on_close` is.
  pub close : Timer H → Timer H
  close t =
      if t.closed
      then t
      else (let stopped = uv.timer_stop t.handle in
          record t {
            closed = true;
            handle = if uv.is_closing stopped then stopped else uv.close stopped;
          })

  -- `call` is the Lua callback, which may call any method of the timer.
  pub fire : (Timer H → Timer H) → Timer H → Timer H
  unfolding close
  fire call t =
      if uv.is_closing t.handle
      then t
      else (let called = call (record t { count = u32 (suc t.count) }) in
          if not (uv.is_active called.handle) && not called.paused then close called else called)

  stop_active : H → H
  stop_active h = if uv.is_active h then uv.timer_stop h else h

  -- `ref_1` and `ref_2` are what `luaL_ref` returns for the timer and for its callback.
  pub start : ℕ → ℕ → ℕ → ℕ → Timer H → Option (Timer H)
  start ref_1 ref_2 after repeat t =
      if t.closed
      then none
      else (let ready = record t { after = after; handle = stop_active t.handle } in
          let held = ref_callback ref_2 (unref_callback (ref_self ref_1 ready)) in
          some (record held {
            handle = uv.timer_start held.handle after repeat;
            count = 0;
            paused = false;
          }))

  pub stop : Timer H → Timer H
  stop t = close t

  -- What the three methods below check: that the timer repeats, and that it was started.
  again_handle : Timer H → Option H
  again_handle t = if uv.timer_get_repeat t.handle == 0 then none else uv.timer_again t.handle

  pub pause : Timer H → Option (Timer H)
  pause t = elim (again_handle t) [
    | none ↦ none
    | some h ↦ some (record t { handle = uv.timer_stop h; paused = true })
  ]

  pub again : Timer H → Option (Timer H)
  again t = if t.closed then none else elim (again_handle t) [
    | none ↦ none
    | some h ↦ some (record t { handle = h; count = 0; paused = false })
  ]

  pub resume : Timer H → Option (Timer H)
  resume t = if t.closed then none else elim (again_handle t) [
    | none ↦ none
    | some h ↦ some (record t { handle = h; paused = false })
  ]

  -- `after` is kept in seconds here, and the repeat in milliseconds.
  pub set_times : ℕ → ℕ → Timer H → Timer H
  set_times after repeat t = record t {
    after = after / 1000;
    handle = uv.timer_set_repeat t.handle repeat;
  }

  pub set_duration : ℕ → Timer H → Timer H
  set_duration after t = record t { after = after }

  pub set_repeat : ℕ → Timer H → Timer H
  set_repeat repeat t = record t { handle = uv.timer_set_repeat t.handle repeat }

  -- Garbage collection closes the timer too.
  pub gc : Timer H → Timer H
  gc t = close t
