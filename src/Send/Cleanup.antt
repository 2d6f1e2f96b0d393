-- ===== src/Send/Cleanup.antt =====
-- What goes wrong in `sig_cleanup` and `unwind_cleanup` while scoped entries are still open.
use libevsig.Base.{
  ℕ, suc, ◌-◌, ◌<◌, ◌≡◌, ◌≢◌, refl, ◌∙◌, true, List, ◌∷◌, ok, fault, arith, ltb, lt→ltb, ◌==◌,
  ==-ne, if◌then◌else◌, length,
}
use libevsig.Memory.{load, free, freed}
use libevsig.Vector.{Holds, load-top, rm_last-freed}
use libevsig.Signals.{sig_rm_handler, sig_rm_restart}
use libevsig.Unwind.{Model, Models, call, drain, unwind_cleanup}
use libevsig.Thread.{
  OnUnwind, unwind_handler_sig_rm_handler, unwind_handler_sig_rm_restart, user_action, UnwindEntry,
  HandlerEntry, RestartEntry, Thread, Program,
}
use libevsig.Shutdown.{Signal, send_async}
use libevsig.Send.Ops.{sig_cleanup, catchall}

-- The action of a scoped handler or restart, while that stack has entries.
abbrev pub IsOpen : OnUnwind → ℕ → List HandlerEntry → List RestartEntry → Type 0
IsOpen unwind_handler_sig_rm_handler id hs rs = (id ≢ 0) × (0 < length hs)
IsOpen unwind_handler_sig_rm_restart id hs rs = 0 < length rs
IsOpen (user_action k) userdata hs rs = ⊥

module _ {W : Type 0} (prog : Program W) where
  -- The state in which `sig_cleanup` calls the actions: both stacks are freed.
  abbrev stale : Thread W → Thread W
  stale t = record t {
    handlers = record (t.handlers) { block = freed };
    restarts = record (t.restarts) { block = freed };
    unwind_init_ref = 0;
  }

  call-stale :
      (h : OnUnwind) (userdata : ℕ) (t : Thread W) (m : Model W)
      → Models t m
      → IsOpen h userdata m.handlers m.restarts
      → call prog h userdata (stale t) ≡ fault
  unfolding call sig_rm_handler sig_rm_restart
  call-stale unwind_handler_sig_rm_handler id t m s o = rw (
    ==-ne o.0,
    rm_last-freed (λ (e : HandlerEntry). e.id == id) (record (t.handlers) { block = freed })
        (t.handlers.fill - 1) refl (omega (arith, s.handlers.filled, o.1)),
  )
  call-stale unwind_handler_sig_rm_restart id t m s o = rw (
      rm_last-freed (λ (e : RestartEntry). e.id == id) (record (t.restarts) { block = freed })
        (t.restarts.fill - 1) refl (omega (arith, s.restarts.filled, o)))
  call-stale (user_action k) userdata t m s o = absurd o

  drain-fault :
      (fuel : ℕ) (t : Thread W) (e : UnwindEntry)
      → 0 < t.unwind_stack.fill
      → load t.unwind_stack.block (t.unwind_stack.fill - 1) ≡ ok e
      → call prog e.h e.userdata t ≡ fault
      → drain prog (suc fuel) t ≡ fault
  unfolding drain
  drain-fault fuel t e some_left top faults =
      rw (lt→ltb 0 t.unwind_stack.fill some_left, top, faults)

  cleanup-last :
      (fuel : ℕ) (t : Thread W)
      → t.unwind_init_ref ≡ 1
      → drain prog fuel (record t { unwind_init_ref = 0 }) ≡ fault
      → unwind_cleanup prog fuel t ≡ fault
  unfolding unwind_cleanup
  cleanup-last fuel t last faults = rw (dropped, faults)
    where
      dropped : (if ltb 0 t.unwind_init_ref then t.unwind_init_ref - 1 else t.unwind_init_ref) ≡ 0
      dropped = rw last

  -- At the last `sig_cleanup` of a thread, if the innermost open scope is that of a handler or a
  -- restart, it uses the stack that it has just freed.
  pub sig_cleanup-fault :
      (fuel : ℕ) (t : Thread W) (m : Model W) (e : UnwindEntry) (es : List UnwindEntry)
      → Models t m
      → m.unwind_init_ref ≡ 1
      → m.actions ≡ e ∷ es
      → IsOpen e.h e.userdata m.handlers m.restarts
      → sig_cleanup prog (suc fuel) t ≡ fault
  unfolding sig_cleanup free
  sig_cleanup-fault fuel t m e es s last top o =
      let held : Holds t.unwind_stack (e ∷ es) = rw top at s.actions in
      let left : t.unwind_stack.fill ≡ suc (length es) = held.filled in
      let index : t.unwind_stack.fill - 1 ≡ length es = omega arith in
      rw (s.handlers.is_block, s.restarts.is_block)
        (cleanup-last (suc fuel) (record (stale t) { unwind_init_ref = t.unwind_init_ref })
          (s.same_ref ∙ last)
          (drain-fault fuel (stale t) e (omega arith) (rw index (load-top t.unwind_stack held))
            (call-stale e.h e.userdata t m s o)))

  -- If the innermost open scope is that of a handler or a restart, the catch-all handler of a thread
  -- set up once, free to take the mutex of the global shutdown signal, uses a freed stack.
  pub catchall-fault :
      (fuel sig_type msg : ℕ) (t : Thread W) (m : Model W) (e : UnwindEntry) (es : List UnwindEntry)
      → Models t m
      → m.unwind_init_ref ≡ 1
      → m.actions ≡ e ∷ es
      → IsOpen e.h e.userdata m.handlers m.restarts
      → t.global.master_mutex ≡ 0
      → catchall prog (suc fuel) sig_type msg t ≡ fault
  unfolding catchall send_async
  catchall-fault fuel sig_type msg t m e es s last top o unlocked = rw unlocked (
      rw (
        sig_cleanup-fault fuel (record t { world = w; global = asked })
          (record m { world = w; global = asked }) e es
          (record {
            handlers = s.handlers;
            restarts = s.restarts;
            actions = s.actions;
            same_ref = s.same_ref;
            same_tid = s.same_tid;
            same_global = refl;
            same_world = refl;
          })
          last top o))
    where
      w : W
      w = prog.raise_sigint (prog.report sig_type msg t.world)

      asked : Signal
      asked = record (t.global) {
        shutdown_thread_exit = true;
        shutdown_mutex = 0;
        master_mutex = 0;
      }
