-- ===== src/Send/Unhandled.antt =====
-- A signal that nobody handles: the clean-up of its thread, and the end of the process.
use libevsig.Base.{ℕ, ◌<◌, ◌≡◌, refl, ◌∙◌, none, List, ok, length}
use libevsig.Memory.{free, freed}
use libevsig.Vector.{Vector}
use libevsig.Shutdown.{Signal}
use libevsig.Shutdown.Lists.{Tracks}
use libevsig.Shutdown.Threads.{without_thread, confirm_shutdown-ok}
use libevsig.Unwind.{Model, Models}
use libevsig.Unwind.Drain.{AllUserActions, all_ran, unwind_cleanup-runs}
use libevsig.Thread.{Thread, Program, returned}
use libevsig.Send.Ops.{sig_cleanup}

-- What is left of a thread that has cleaned up.
pub record Cleaned {W : Type 0} (u : Thread W) (w : W) (g : Signal) : Type 0 where
  pub handlers : u.handlers.block ≡ freed
  pub restarts : u.restarts.block ≡ freed
  pub unwind_stack : u.unwind_stack.block ≡ freed
  pub no_ref : u.unwind_init_ref ≡ 0
  pub world : u.world ≡ w
  pub global : u.global ≡ g

module _ {W : Type 0} (prog : Program W)
    (returns : (k userdata : ℕ) (w : W) → (prog.on_unwind k userdata w).1 ≡ none) where
  -- The last `sig_cleanup` of a thread in which no handler or restart scope is open, on a global signal
  -- that nobody holds.
  pub sig_cleanup-runs :
      (fuel : ℕ) (t : Thread W) (m : Model W) (ts : List ℕ)
      → Models t m
      → m.unwind_init_ref ≡ 1
      → AllUserActions m.actions
      → length m.actions < fuel
      → t.global.master_mutex ≡ 0
      → Tracks t.global.threadlist ts
      → (u : Thread W) × (list : Vector ℕ) × (sig_cleanup prog fuel t ≡ ok (returned u))
        × Tracks list (without_thread t.tid ts)
        × Cleaned u
            (all_ran prog m.actions t.world)
            (record (t.global) { threadlist = list; master_mutex = 0 })
  unfolding sig_cleanup free
  sig_cleanup-runs fuel t m ts s last user enough unlocked listed =
      let (list, confirmed, tracked) = confirm_shutdown-ok t.global t.tid ts unlocked listed in
      let g : Signal = record (t.global) { threadlist = list; master_mutex = 0 } in
      let emptied : Thread W = record t {
        handlers = record (t.handlers) { block = freed };
        restarts = record (t.restarts) { block = freed };
      } in
      (
        record emptied {
          unwind_init_ref = 0;
          unwind_stack = record (t.unwind_stack) { block = freed; fill = 0 };
          global = g;
          world = all_ran prog m.actions t.world;
        },
        list,
        rw (s.handlers.is_block, s.restarts.is_block)
            (unwind_cleanup-runs prog returns fuel m.actions emptied g (s.same_ref ∙ last) s.actions
              user enough confirmed),
        tracked,
        record {
          handlers = refl;
          restarts = refl;
          unwind_stack = refl;
          no_ref = refl;
          world = refl;
          global = refl;
        },
      )
