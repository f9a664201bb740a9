-- ===== src/Pipe.antt =====
-- mumble/pipe.c: a named pipe that a Lua callback reads. libuv's stream handle is an argument (Streams), and
-- so are the outcomes of the system calls. `none` is a use of a handle that was freed.
pub mod Laws
pub mod Reads
use lua_mumble.Base.{
  ℕ, zero, suc, ◌+◌, ◌-◌, ◌*◌, ◌/◌, ◌%◌, ◌^◌, ◌≤◌, ◌<◌, List, [], ◌∷◌, ◌++◌, map, Option, none,
  some, Bool, true, false, not, ◌&&◌, ◌||◌, ◌==◌, ltb, leb, if◌then◌else◌, ◌>>=◌, load, store,
  length, take, drop, ◌≡◌, ◌≢◌, ◌⊎◌, ◌↔◌, inl, inr, refl, sym, ap, ◌∙◌, arith, All, Bool-cases,
  Option-cases, ==_iff, length-append, take-append, String,
}
use lua_mumble.Registry.{unref}

-- A stream handle of libuv, with its functions; `is_reading` says if libuv gives the callback what it reads.
pub record Streams (H : Type 0) : Type 0 where
  pub read_start : H → H
  pub read_stop : H → H
  pub is_closing : H → Bool
  pub is_reading : H → Bool
  pub close : H → H

-- What libuv calls when a handle is closed.
pub data CloseCallback : Type 0 where
  close_cb : CloseCallback
  reopen : CloseCallback

-- `pipe` is what the pointer leads to, `none` if that is freed. `self` and `callback` are references, `none`
-- for LUA_NOREF, which pushes nil; `refs` is what the registry MUMBLE_PIPE_REG holds for this pipe. `calls`
-- are the calls of the Lua callback with their bytes.
pub record MumblePipe (H : Type 0) : Type 0 where
  pub pipe : Option H
  pub self : Option ℕ
  pub callback : Option ℕ
  pub refs : List ℕ
  pub closing : Option CloseCallback
  pub calls : List (Option ℕ × List ℕ)

-- How a pipe is opened again: without memory, without the file, with a handle that does not take the file or
-- that cannot be read, or with a new handle.
pub data Reopened (H : Type 0) : Type 0 where
  no_memory : Reopened H
  no_file : Reopened H
  not_opened : Reopened H
  not_read : Reopened H
  opened : H → Reopened H

-- What libuv reads: bytes, nothing, the end of the file, or an error.
pub data Read : Type 0 where
  bytes : List ℕ → Read
  nothing : Read
  end_of_file : Read
  failure : Read

module _ {H : Type 0} (uv : Streams H) where
  unfoldable pub close_stopped : H → MumblePipe H → MumblePipe H
  close_stopped h p =
      if uv.is_closing h
      then record p { pipe = some h }
      else record p { pipe = some (uv.close h); closing = some close_cb }

  unfoldable pub unref_all : MumblePipe H → MumblePipe H
  unfolding unref
  unref_all p = record p {
    callback = none;
    self = none;
    refs = unref p.self (unref p.callback p.refs);
  }

  pub pipe_close : MumblePipe H → Option (MumblePipe H)
  unfolding close_stopped unref_all
  pipe_close p = p.pipe >>= λ h. some (unref_all (close_stopped (uv.read_stop h) p))

  unfoldable pub pipe_reopen : Reopened H → MumblePipe H → Option (MumblePipe H)
  unfolding pipe_close
  pipe_reopen no_memory p = pipe_close p
  pipe_reopen no_file p = pipe_close p
  pipe_reopen not_opened p = pipe_close p
  pipe_reopen not_read p = pipe_close p
  pipe_reopen (opened h) p = some (record p { pipe = some (uv.read_start h) })

  -- libuv has closed the handle.
  unfoldable pub on_closed :
      Option CloseCallback → Reopened H → MumblePipe H → Option (MumblePipe H)
  unfolding pipe_reopen
  on_closed none again p = some p
  on_closed (some close_cb) again p = some (record p { pipe = none; closing = none })
  on_closed (some reopen) again p = pipe_reopen again (record p { closing = none })

  pub on_read : Read → MumblePipe H → Option (MumblePipe H)
  unfolding pipe_close
  on_read (bytes text) p = some (record p { calls = p.calls ++ (p.callback, text) ∷ [] })
  on_read nothing p = some p
  on_read end_of_file p =
      p.pipe >>= λ h. some (record p { pipe = some (uv.close h); closing = some reopen })
  on_read failure p = pipe_close p

  unfoldable pub is_read : Option H → Bool
  is_read none = false
  is_read (some h) = uv.is_reading h

  -- A turn of the loop: what there is to read, where the handle is read, and what libuv calls when a handle
  -- that the read closed is closed. Of a handle that is not read the callback is told nothing.
  pub pipe_turn : Read → Reopened H → MumblePipe H → Option (MumblePipe H)
  unfolding is_read
  pipe_turn read again p =
      if is_read p.pipe then (on_read read p >>= λ q. on_closed q.closing again q) else some p

-- What the system calls of `mumble_pipe_new` return; `exists` is EEXIST of `mkfifo`.
pub record Calls (H : Type 0) : Type 0 where
  pub mkfifo : Bool
  pub exists : Bool
  pub open_file : Bool
  pub fifo : Bool
  pub allocated : Bool
  pub init : Bool
  pub pipe_open : Bool
  pub handle : H

-- The file descriptors and the handles that are left, with the pipe or an error.
pub record Made (H : Type 0) : Type 0 where
  pub files : ℕ
  pub handles : ℕ
  pub made : Option (MumblePipe H)

unfoldable pub failed : {H : Type 0} → ℕ → ℕ → Made H
failed files handles = record { files = files; handles = handles; made = none }

module _ {H : Type 0} (uv : Streams H) where
  unfoldable pub first_pipe : H → ℕ → ℕ → MumblePipe H
  first_pipe h self callback = record {
    pipe = some (uv.read_start h);
    self = some self;
    callback = some callback;
    refs = callback ∷ self ∷ [];
    closing = none;
    calls = [];
  }

  -- Every failure closes and frees what was opened before it.
  pub pipe_new : Calls H → ℕ → ℕ → Made H
  unfolding failed first_pipe
  pipe_new c self callback =
      let files : ℕ = 1 in
      let handles : ℕ = 1 in
      if not c.mkfifo && not c.exists
      then failed 0 0
      else (if not c.open_file
          then failed 0 0
          else (if not c.fifo
              then failed (files - 1) 0
              else (if not c.allocated
                  then failed (files - 1) 0
                  else (if not c.init
                      then failed (files - 1) (handles - 1)
                      else (if not c.pipe_open then failed (files - 1) (handles - 1) else record {
                        files = files;
                        handles = handles;
                        made = some (first_pipe c.handle self callback);
                      })))))
