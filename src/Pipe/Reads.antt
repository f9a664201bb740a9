-- ===== src/Pipe/Reads.antt =====
-- mumble/pipe.c: what the callback of a pipe is given, also when writers come and go.
use lua_mumble.Base.{
  ℕ, List, [], ◌∷◌, ◌++◌, Option, none, some, true, ◌>>=◌, ◌≡◌, refl, sym, ap, ◌∙◌,
}
use mathlib.Core.List.{append-nil, append_assoc}
use lua_mumble.Pipe.{
  Streams, MumblePipe, opened, no_file, bytes, end_of_file, on_read, on_closed, pipe_turn,
  pipe_reopen, is_read,
}

-- Bytes of a writer, or the end of one, after which the pipe is opened again with a new handle.
pub data Event (H : Type 0) : Type 0 where
  text : List ℕ → Event H
  writer_left : H → Event H

module _ {H : Type 0} (uv : Streams H) where
  pub read_events : List (Event H) → MumblePipe H → Option (MumblePipe H)
  unfolding pipe_turn
  read_events [] p = some p
  read_events (text t ∷ rest) p = pipe_turn uv (bytes t) no_file p >>= read_events rest
  read_events (writer_left h ∷ rest) p = pipe_turn uv end_of_file (opened h) p >>= read_events rest

  unfoldable pub calls_of : Option ℕ → List (Event H) → List (Option ℕ × List ℕ)
  calls_of callback [] = []
  calls_of callback (text t ∷ rest) = (callback, t) ∷ calls_of callback rest
  calls_of callback (writer_left h ∷ rest) = calls_of callback rest

  text_turn :
      (t : List ℕ) (p : MumblePipe H) (h : H)
      → p.pipe ≡ some h
      → uv.is_reading h ≡ true
      → p.closing ≡ none
      → pipe_turn uv (bytes t) no_file p
        ≡ some (record p { calls = p.calls ++ (p.callback, t) ∷ [] })
  unfolding pipe_turn is_read on_read on_closed
  text_turn t p h there read closing = rw (there, read, closing) refl

  left_turn :
      (new : H) (p : MumblePipe H) (h : H)
      → p.pipe ≡ some h
      → uv.is_reading h ≡ true
      → pipe_turn uv end_of_file (opened new) p
        ≡ some (record p { pipe = some (uv.read_start new); closing = none })
  unfolding pipe_turn is_read on_read on_closed pipe_reopen
  left_turn new p h there read = rw (there, read) refl

  -- Where `uv_read_start` has libuv read a handle: until it is closed, a pipe that is read gives its callback
  -- what all the writers wrote, in order, across the times at which it is opened again; it stays open and is
  -- read, and its references stay.
  pub read_events_lem :
      (events : List (Event H)) (p : MumblePipe H) (h : H)
      → ((new : H) → uv.is_reading (uv.read_start new) ≡ true)
      → p.pipe ≡ some h
      → uv.is_reading h ≡ true
      → p.closing ≡ none
      → (after : MumblePipe H) × (read_events events p ≡ some after)
        × (after.calls ≡ p.calls ++ calls_of p.callback events)
        × (after.callback ≡ p.callback)
        × (after.refs ≡ p.refs)
        × (h' : H) × (after.pipe ≡ some h')
        × (uv.is_reading h' ≡ true)
  unfolding read_events calls_of
  read_events_lem [] p h starts there read closing =
      (p, refl, sym (append-nil p.calls), refl, refl, h, there, read)
  read_events_lem (text t ∷ rest) p h starts there read closing =
      let next : MumblePipe H = record p { calls = p.calls ++ (p.callback, t) ∷ [] } in
      let (after, e, calls, same, refs, last, there_still, read_still) =
        read_events_lem rest next h starts there read closing in
      (
        after,
        ap (λ o. o >>= read_events rest) (text_turn t p h there read closing) ∙ e,
        calls ∙ append_assoc p.calls ((p.callback, t) ∷ []) (calls_of p.callback rest),
        same,
        refs,
        last,
        there_still,
        read_still,
      )
  read_events_lem (writer_left new ∷ rest) p h starts there read closing =
      let next : MumblePipe H = record p { pipe = some (uv.read_start new); closing = none } in
      let (after, e, calls, same, refs, last, there_still, read_still) =
        read_events_lem rest next (uv.read_start new) starts refl (starts new) refl in
      (
        after,
        ap (λ o. o >>= read_events rest) (left_turn new p h there read) ∙ e,
        calls,
        same,
        refs,
        last,
        there_still,
        read_still,
      )
