-- ===== src/Pipe/Laws.antt =====
-- mumble/pipe.c: opening and closing a pipe.
use lua_mumble.Base.{
  ℕ, List, [], ◌∷◌, ◌++◌, none, some, true, false, ◌||◌, ◌==◌, if◌then◌else◌, ◌>>=◌, ◌≡◌, ◌⊎◌, refl,
  ap, ◌∙◌, arith, ==_iff,
}
use lua_mumble.Registry.{unref, remove_ref}
use lua_mumble.Pipe.{
  Streams, MumblePipe, close_cb, reopen, Reopened, opened, bytes, end_of_file, on_read, on_closed,
  pipe_reopen, pipe_close, close_stopped, unref_all, Calls, pipe_new, first_pipe, failed,
}

module _ {H : Type 0} (uv : Streams H) where
  closed_unref :
      (callback self : ℕ) → unref (some self) (unref (some callback) (callback ∷ self ∷ [])) ≡ []
  unfolding unref remove_ref
  closed_unref callback self =
      let a : (callback == callback) ≡ true = (==_iff callback callback).1 refl in
      let b : (self == self) ≡ true = (==_iff self self).1 refl in rw (a, b) refl

  -- A pipe that is closed: its references are released, libuv closes and frees its handle, and a second call of
  -- `close` after that uses the freed handle.
  pub pipe_close_lem :
      (p : MumblePipe H) (h : H) (self callback : ℕ) (again : Reopened H)
      → p.pipe ≡ some h
      → p.self ≡ some self
      → p.callback ≡ some callback
      → p.refs ≡ callback ∷ self ∷ []
      → uv.is_closing (uv.read_stop h) ≡ false
      → (q r : MumblePipe H) × (pipe_close uv p ≡ some q)
        × (q.refs ≡ [])
        × (on_closed uv q.closing again q ≡ some r)
        × (r.pipe ≡ none)
        × (pipe_close uv r ≡ none)
  unfolding pipe_close close_stopped unref_all on_closed
  pipe_close_lem p h self callback again there owner listener refs open_yet =
      let stopped = uv.read_stop h in
      let q : MumblePipe H = record p {
        pipe = some (uv.close stopped);
        closing = some close_cb;
        callback = none;
        self = none;
        refs = [];
      } in
      let released : unref p.self (unref p.callback p.refs) ≡ [] =
        ap (λ o. unref o (unref p.callback p.refs)) owner
        ∙ ap (λ o. unref (some self) (unref o p.refs)) listener
        ∙ ap (λ l. unref (some self) (unref (some callback) l)) refs
        ∙ closed_unref callback self in
      (
        q,
        record q { pipe = none; closing = none },
        ap (λ o. o >>= λ g. some (unref_all uv (close_stopped uv (uv.read_stop g) p))) there
            ∙ ap
                (λ b. some (
                  unref_all uv (
                    if b
                    then record p { pipe = some stopped }
                    else record p { pipe = some (uv.close stopped); closing = some close_cb })))
                open_yet
            ∙ ap
                (λ l. some (record p {
                  pipe = some (uv.close stopped);
                  closing = some close_cb;
                  callback = none;
                  self = none;
                  refs = l;
                }))
                released,
        refl,
        refl,
        refl,
        refl,
      )

  -- A pipe that is closed while it is being opened again is not closed: it reads on with the new handle, and
  -- calls nil.
  pub close_reopening :
      (p : MumblePipe H) (h new : H) (text : List ℕ)
      → p.pipe ≡ some h
      → uv.is_closing (uv.read_stop (uv.close h)) ≡ true
      → (q r s u : MumblePipe H) × (on_read uv end_of_file p ≡ some q)
        × (pipe_close uv q ≡ some r)
        × (on_closed uv r.closing (opened new) r ≡ some s)
        × (s.pipe ≡ some (uv.read_start new))
        × (on_read uv (bytes text) s ≡ some u)
        × (u.calls ≡ p.calls ++ (none, text) ∷ [])
  unfolding pipe_close close_stopped unref_all on_closed on_read pipe_reopen
  close_reopening p h new text there is_closed =
      let stopped = uv.read_stop (uv.close h) in
      let q : MumblePipe H = record p { pipe = some (uv.close h); closing = some reopen } in
      let r : MumblePipe H = unref_all uv (record q { pipe = some stopped }) in
      let s : MumblePipe H = record r { pipe = some (uv.read_start new); closing = none } in
      (
        q,
        r,
        s,
        record s { calls = p.calls ++ (none, text) ∷ [] },
        ap (λ o. o >>= λ g. some (record p { pipe = some (uv.close g); closing = some reopen }))
            there,
        ap
            (λ b. some (
              unref_all uv (
                if b
                then record q { pipe = some stopped }
                else record q { pipe = some (uv.close stopped); closing = some close_cb })))
            is_closed,
        refl,
        refl,
        refl,
        refl,
      )

  -- Every failure leaves no file and no handle behind; a pipe that is made has one of each and is read, with both
  -- references in the registry.
  pub pipe_new_lem :
      (c : Calls H) (self callback : ℕ)
      → (((pipe_new uv c self callback).made ≡ none)
          × ((pipe_new uv c self callback).files ≡ 0)
          × ((pipe_new uv c self callback).handles ≡ 0))
        ⊎ (((pipe_new uv c self callback).made ≡ some (first_pipe uv c.handle self callback))
            × ((pipe_new uv c self callback).files ≡ 1)
            × ((pipe_new uv c self callback).handles ≡ 1)
            × ((c.mkfifo || c.exists) ≡ true)
            × (c.fifo ≡ true))
  unfolding pipe_new failed
  pipe_new_lem c self callback = ground arith
