-- ===== src/Timer/Laws.antt =====
-- mumble/timer.c: what the registry holds for a timer, over all its methods.
use lua_mumble.Base.{
  Option-cases, ◌≢◌, ◌⊎◌, ℕ, List, [], ◌∷◌, ◌++◌, Option, none, some, true, false, ◌==◌, ◌≡◌, refl,
  ap, ◌∙◌, arith, Bool-cases, inl, inr, ==_iff,
}
use lua_mumble.Registry.{remove_ref, unref}
use lua_mumble.Timer.{
  held_ref, stop_active, add_ref, Libuv, Timer, close, fire, start, pause, again, resume, on_close,
  again_handle, unref_callback, unref_self, ref_self, ref_callback,
}

abbrev pub opt_list : Option ℕ → List ℕ
opt_list none = []
opt_list (some r) = r ∷ []

-- The registry holds the callback and the timer itself, as the timer's fields say, and a callback
-- only with the timer.
pub record IsHeld {H : Type 0} (t : Timer H) : Type 0 where
  pub registry : t.refs ≡ opt_list t.callback ++ opt_list t.self
  pub together : t.self ≡ none → t.callback ≡ none

remove-head : (r : ℕ) (rs : List ℕ) → remove_ref r (r ∷ rs) ≡ rs
unfolding remove_ref
remove-head r rs = let e : (r == r) ≡ true = (==_iff r r).1 refl in rw e

unref-held : (o : Option ℕ) (rs : List ℕ) → unref o (opt_list o ++ rs) ≡ rs
unfolding unref
unref-held none rs = refl
unref-held (some r) rs = remove-head r rs

unref-last : (o : Option ℕ) → unref o (opt_list o) ≡ []
unfolding unref
unref-last none = refl
unref-last (some r) = remove-head r []

-- What the registry holds once the timer is referenced and the old callback is not.
restart_refs :
    (self callback : Option ℕ) (r : ℕ) (refs : List ℕ)
    → refs ≡ opt_list callback ++ opt_list self
    → (self ≡ none → callback ≡ none)
    → unref callback (add_ref self r refs) ≡ held_ref self r ∷ []
unfolding add_ref held_ref
restart_refs none callback r refs h k = let e = k refl in rw (h, e) (unfold unref in refl)
restart_refs (some s) callback r refs h k = ap (unref callback) h ∙ unref-held callback (s ∷ [])

module _ {H : Type 0} where
  unref_callback-IsHeld : (t : Timer H) → IsHeld t → (unref_callback t).refs ≡ opt_list t.self
  unfolding unref_callback
  unref_callback-IsHeld t h =
      ap (unref t.callback) h.registry ∙ unref-held t.callback (opt_list t.self)

  unref_self-IsHeld : (t : Timer H) → t.refs ≡ opt_list t.self → (unref_self t).refs ≡ []
  unfolding unref_self
  unref_self-IsHeld t h = ap (unref t.self) h ∙ unref-last t.self

  -- When libuv has closed the handle, nothing of the timer is left in the registry.
  pub on_close_lem :
      (t : Timer H)
      → IsHeld t
      → ((on_close t).refs ≡ []) × ((on_close t).self ≡ none) × ((on_close t).callback ≡ none)
  unfolding on_close
  on_close_lem t h = (
    unref_self-IsHeld (unref_callback t)
        (unref_callback-IsHeld t h ∙ (unfold unref_callback in refl)),
    unfold unref_self in refl,
    unfold unref_self unref_callback in refl,
  )

-- What libuv documents of its timers: a handle that is closing is not active and stays closing.
pub record IsLibuv {H : Type 0} (uv : Libuv H) : Type 0 where
  pub close_closing : (h : H) → uv.is_closing (uv.close h) ≡ true
  pub stop_active : (h : H) → uv.is_active (uv.timer_stop h) ≡ false
  pub stop_closing : (h : H) → uv.is_closing (uv.timer_stop h) ≡ uv.is_closing h
  pub start_active :
      (h : H) (after repeat : ℕ)
      → uv.is_closing h ≡ false
      → uv.is_active (uv.timer_start h after repeat) ≡ true

module _ {H : Type 0} (uv : Libuv H) (laws : IsLibuv uv) where
  stop_active-closing : (k : H) → uv.is_closing k ≡ false → uv.is_closing (stop_active uv k) ≡ false
  unfolding stop_active
  stop_active-closing k e = elim (Bool-cases (uv.is_active k)) [
    | inl running ↦ rw (running) (laws.stop_closing k ∙ e)
    | inr idle ↦ rw idle e
  ]

  -- `timer_start` on a timer that is not closed leaves in the registry its new callback and the
  -- timer itself, whatever it held before; the timer runs and counts from 0.
  pub start_lem :
      (ref_1 ref_2 after repeat : ℕ) (t : Timer H)
      → IsHeld t
      → t.closed ≡ false
      → uv.is_closing t.handle ≡ false
      → (t' : Timer H) × (start uv ref_1 ref_2 after repeat t ≡ some t')
        × IsHeld t'
        × (t'.callback ≡ some ref_2)
        × (t'.self ≢ none)
        × (uv.is_active t'.handle ≡ true)
        × (t'.count ≡ 0)
        × (t'.paused ≡ false)
  unfolding start ref_callback unref_callback ref_self
  start_lem ref_1 ref_2 after repeat t h alive closing =
      let refs = restart_refs t.self t.callback ref_1 t.refs h.registry h.together in
      (
        record {
          after = after;
          count = 0;
          closed = t.closed;
          paused = false;
          self = some (held_ref t.self ref_1);
          callback = some ref_2;
          handle = uv.timer_start (stop_active uv t.handle) after repeat;
          refs = ref_2 ∷ unref t.callback (add_ref t.self ref_1 t.refs);
        },
        rw alive,
        record { registry = ap (◌∷◌ ref_2) refs; together = λ k. absurd (ground (arith, k)) },
        refl,
        (λ (k : some _ ≡ none). ground (arith, k)),
        laws.start_active (stop_active uv t.handle) after repeat
            (stop_active-closing t.handle closing),
        refl,
        refl,
      )

  -- A timer that is closed cannot be started, restarted or resumed.
  pub closed_refuses :
      (ref_1 ref_2 after repeat : ℕ) (t : Timer H)
      → t.closed ≡ true
      → (start uv ref_1 ref_2 after repeat t ≡ none) × (again uv t ≡ none) × (resume uv t ≡ none)
  unfolding start again resume
  closed_refuses ref_1 ref_2 after repeat t h = (rw h, rw h, rw h)

  -- `mumble_timer_close` leaves a timer that is not closed with a closing handle, and a second call
  -- changes nothing.
  pub close_lem :
      (t : Timer H)
      → ((close uv t).closed ≡ true)
        × (t.closed ≡ false → uv.is_closing (close uv t).handle ≡ true)
        × (close uv (close uv t) ≡ close uv t)
  unfolding close
  close_lem t =
      ground (arith, laws.close_closing (uv.timer_stop t.handle), laws.stop_closing t.handle)

  -- After its callback, a timer whose handle was not closing is active, paused or closed, whatever
  -- the callback did.
  pub fire_lem :
      (call : Timer H → Timer H) (t : Timer H)
      → uv.is_closing t.handle ≡ false
      → (uv.is_active (fire uv call t).handle ≡ true)
        ⊎ (((fire uv call t).paused ≡ true) ⊎ ((fire uv call t).closed ≡ true))
  unfolding fire close
  fire_lem call t alive = ground arith

  -- Pausing stops the handle; what the registry holds and the count stay.
  pub pause_lem :
      (t t' : Timer H)
      → pause uv t ≡ some t'
      → (uv.is_active t'.handle ≡ false)
        × (t'.paused ≡ true)
        × (t'.refs ≡ t.refs)
        × (t'.count ≡ t.count)
  unfolding pause
  pause_lem t t' h = elim (Option-cases (again_handle uv t)) [
    | inl e ↦ ground arith
    | inr (k, e) ↦ ground (arith, laws.stop_active k)
  ]
