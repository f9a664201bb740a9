-- ===== src/Tests/Pipes.antt =====
-- A handle that is only its flags, and a pipe that is read.
use lua_mumble.Base.{[], ◌∷◌, none, some, Bool, true, false, ◌≡◌, refl}
use lua_mumble.Pipe.{Streams, MumblePipe, no_file, on_closed, pipe_close}
use lua_mumble.Pipe.Laws.{pipe_close_lem}
use lua_mumble.Pipe.Reads.{text, writer_left, read_events, read_events_lem, calls_of}

-- If the handle is closing, and if it is read.
abbrev flags : Streams (Bool × Bool)
flags = record {
  read_start = λ (closing, reading). (closing, true);
  read_stop = λ (closing, reading). (closing, false);
  is_closing = λ h. h.0;
  is_reading = λ h. h.1;
  close = λ (closing, reading). (true, false);
}

abbrev read_pipe : MumblePipe (Bool × Bool)
read_pipe = record {
  pipe = some (false, true);
  self = some 2;
  callback = some 3;
  refs = 3 ∷ 2 ∷ [];
  closing = none;
  calls = [];
}

read_events_lem_example :
    (after : MumblePipe (Bool × Bool)) × (read_events flags
        (text (1 ∷ []) ∷ writer_left (false, false) ∷ text (2 ∷ []) ∷ [])
        read_pipe
      ≡ some after)
    × (after.calls
        ≡ calls_of flags (some 3) (text (1 ∷ []) ∷ writer_left (false, false) ∷ text (2 ∷ []) ∷ []))
    × (after.callback ≡ some 3)
    × (after.refs ≡ 3 ∷ 2 ∷ [])
    × (h : Bool × Bool) × (after.pipe ≡ some h)
    × (h.1 ≡ true)
read_events_lem_example =
    read_events_lem flags (text (1 ∷ []) ∷ writer_left (false, false) ∷ text (2 ∷ []) ∷ [])
      read_pipe (false, true) (λ new. refl) refl refl refl

pipe_close_lem_example :
    (q r : MumblePipe (Bool × Bool)) × (pipe_close flags read_pipe ≡ some q)
    × (q.refs ≡ [])
    × (on_closed flags q.closing no_file q ≡ some r)
    × (r.pipe ≡ none)
    × (pipe_close flags r ≡ none)
pipe_close_lem_example =
    pipe_close_lem flags read_pipe (false, true) 2 3 no_file refl refl refl refl refl
