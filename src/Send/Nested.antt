-- ===== src/Send/Nested.antt =====
-- A second `sig_init` in a thread that is set up.
use libevsig.Base.{
  ◌≢◌, ==-ne, lt→ltb, some, none, ◌∷◌, replicate, ℕ, suc, ◌+◌, ◌-◌, ◌≡◌, refl, Bool, true, Result,
  ok, fault, ◌>>=◌, arith,
}
use libevsig.Memory.{free, freed, cells}
use libevsig.Vector.{empty_vector}
use libevsig.Unwind.{unwind_init, unwind_cleanup}
use libevsig.Thread.{Thread, Program, Flow, returned, landed, thread_exited}
use libevsig.Send.Setup.{catchall_entry}
use libevsig.Send.Ops.{sig_init, sig_cleanup, register_global}

module _ {W : Type 0} (prog : Program W) where
  -- The code that follows a call which returns.
  abbrev pub and_then : (Thread W → Result (Flow W)) → Flow W → Result (Flow W)
  and_then k (returned t) = k t
  and_then k (landed p t) = ok (landed p t)
  and_then k (thread_exited t) = ok (thread_exited t)

  unwind_cleanup-outer :
      (fuel n : ℕ) (t : Thread W)
      → t.unwind_init_ref ≡ suc (suc n)
      → unwind_cleanup prog fuel t ≡ ok (returned (record t { unwind_init_ref = suc n }))
  unfolding unwind_cleanup
  unwind_cleanup-outer fuel n t e =
      rw (lt→ltb 0 t.unwind_init_ref (omega (arith, e)), dropped, ==-ne suc_ne) refl
    where
      dropped : t.unwind_init_ref - 1 ≡ suc n
      dropped = omega (arith, e)

      suc_ne : suc n ≢ 0
      suc_ne z = omega (arith, z)

  unwind_init-again :
      (n : ℕ) (t : Thread W)
      → t.unwind_init_ref ≡ suc n
      → unwind_init true t ≡ ok (record t { unwind_init_ref = suc (suc n) })
  unfolding unwind_init
  unwind_init-again n t e = rw (==-ne in_use, counted) refl
    where
      in_use : t.unwind_init_ref ≢ 0
      in_use z = omega (arith, e, z)

      counted : t.unwind_init_ref + 1 ≡ suc (suc n)
      counted = omega (arith, e)

  sig_cleanup-twice :
      (fuel : ℕ) (t : Thread W) → t.handlers.block ≡ freed → sig_cleanup prog fuel t ≡ fault
  unfolding sig_cleanup free
  sig_cleanup-twice fuel t e = rw e refl

  -- The thread after the second `sig_init`.
  again : Thread W → ℕ → Thread W
  again g n = record g {
    handlers = record (empty_vector) {
      block = cells (some catchall_entry ∷ replicate 31 none);
      fill = 1;
    };
    restarts = empty_vector;
    unwind_init_ref = suc (suc n);
  }

  sig_init-again :
      (n : ℕ) (created threadlocal : Bool) (t g : Thread W)
      → register_global true created threadlocal t ≡ ok g
      → g.unwind_init_ref ≡ suc n
      → sig_init true created threadlocal t ≡ ok (again g n)
  unfolding sig_init again
  sig_init-again n created threadlocal t g registered set_up = rw registered (
      unwind_init-again n
        (record g {
          handlers = record (empty_vector) {
            block = cells (some catchall_entry ∷ replicate 31 none);
            fill = 1;
          };
          restarts = empty_vector;
        })
        set_up)

  sig_cleanup-outer :
      (fuel n : ℕ) (g : Thread W)
      → (sig_cleanup prog fuel (again g n) >>= and_then (sig_cleanup prog fuel)) ≡ fault
  unfolding sig_cleanup again free
  sig_cleanup-outer fuel n g =
      let u : Thread W = record (again g n) {
        handlers = record ((again g n).handlers) { block = freed };
        restarts = record ((again g n).restarts) { block = freed };
      } in
      rw (unwind_cleanup-outer fuel n u refl)
        (sig_cleanup-twice fuel (record u { unwind_init_ref = suc n }) refl)

  -- In a thread that is set up, however often, where registration succeeds and there is memory, a
  -- second `sig_init` and then a `sig_cleanup` for each of the two is a double free: the first
  -- clean-up frees the handlers although `unwind_cleanup` finds that the thread is still in use.
  pub sig_init-twice :
      (fuel n : ℕ) (created threadlocal : Bool) (t g : Thread W)
      → register_global true created threadlocal t ≡ ok g
      → g.unwind_init_ref ≡ suc n
      → (sig_init true created threadlocal t >>= λ u.
          sig_cleanup prog fuel u >>= and_then (sig_cleanup prog fuel))
        ≡ fault
  sig_init-twice fuel n created threadlocal t g registered set_up =
      rw (sig_init-again n created threadlocal t g registered set_up) (sig_cleanup-outer fuel n g)
