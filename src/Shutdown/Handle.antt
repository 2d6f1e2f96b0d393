-- ===== src/Shutdown/Handle.antt =====
-- A callback that is registered for a while, by a handle whose unwind action ends the registration.
use libevsig.Base.{
  ℕ, ◌+◌, ◌^◌, ◌<◌, ◌≤◌, ◌≡◌, refl, ap, subst, arith, true, List, [], ◌∷◌, Result, ◌>>=◌, ==_refl,
  ==-ne,
}
use libevsig.Vector.{Yields}
use libevsig.Shutdown.Rounds.{others}
use libevsig.Shutdown.Ops.{Signal, Callback, register_cb, unregister_cb}
use libevsig.Shutdown.Callbacks.{
  Notifies, is_callback, register_cb-Notifies, unregister_cb-Notifies,
}

-- `evsig_cb_handle`, but for the pointer to the signal.
pub record CbHandle : Type 0 where
  pub id : ℕ

-- `unwind_handler_evsig_thread_shutdown_signal_unregister_cb`
unfoldable pub unwind_handler_unregister_cb : Signal → CbHandle → Result Signal
unfolding unregister_cb
unwind_handler_unregister_cb s h = unregister_cb s h.id

-- No id is above `last`.
abbrev pub IsUpTo : ℕ → List Callback → Type 0
IsUpTo last [] = Unit
IsUpTo last (c ∷ cs) = (c.id ≤ last) × IsUpTo last cs

others-IsUpTo :
    (last id : ℕ) (cs : List Callback)
    → last < id
    → IsUpTo last cs
    → others (is_callback id) cs ≡ cs
others-IsUpTo last id [] above up = refl
others-IsUpTo last id (c ∷ cs) above up =
    rw (==-ne {a = c.id} {b = id} (omega (arith, up.0)))
      (ap (λ l. c ∷ l) (others-IsUpTo last id cs above up.1))

-- While the ids do not wrap around, and on a mutex that nobody holds with memory to be had: the
-- handle of a new registration, once it is run, leaves exactly the callbacks of before, in order.
pub register_cb-unregister_cb :
    (s : Signal) (cb ud : ℕ) (cs : List Callback)
    → Notifies s cs
    → IsUpTo s.callbacks_last_insert_id cs
    → s.callbacks_last_insert_id + 1 < 2 ^ 64
    → Yields
        (register_cb true s cb ud >>= λ r. unwind_handler_unregister_cb r.1 (record { id = r.0 }))
        (λ s'. Notifies s' cs)
unfolding unwind_handler_unregister_cb
register_cb-unregister_cb s cb ud cs n up room =
    let (r, registered, (fresh, last, added)) = register_cb-Notifies s cb ud cs n in
    let (t, dropped, left) = unregister_cb-Notifies r.1 r.0 _ added in
    let above : s.callbacks_last_insert_id < r.0 = omega (arith, fresh, room) in
    let same : others (is_callback r.0) (record { id = r.0; cb = cb; ud = ud } ∷ cs) ≡ cs =
      rw (==_refl r.0) (others-IsUpTo s.callbacks_last_insert_id r.0 cs above up) in
    (t, rw registered dropped, subst (λ l. Notifies t l) same left)
