-- ===== src/Tests/Sends.antt =====
-- What unwinding, sending, the set-up and the clean-up of a thread come to, on small stacks.
use libevsig.Base.{ℕ, ◌≡◌, refl, true, false, [], ◌∷◌, arith, ok, fault, none, some, replicate}
use libevsig.Vector.{find_last, any_from, Yields}
use libevsig.Memory.{load, cells}
use libevsig.Shutdown.{Signal, init, insert_thread, insert_into, start_thread}
use libevsig.Unwind.{jump, Model, Models, unwind, unwind_to_point}
use libevsig.Unwind.Refine.{Lands, unwind-refines}
use libevsig.Thread.{RestartEntry, UnwindEntry, Thread, landed, unwind_handler_sig_rm_handler}
use libevsig.Signals.{sig_restart_available}
use libevsig.Signals.Names.{signal_fail}
use libevsig.Send.Spec.{restart_for}
use libevsig.Send.{run_restart, sig_init, sig_send, sig_cleanup, catchall, register_global}
use libevsig.Send.Available.{sig_restart_available-run_restart}
use libevsig.Send.Refine.{sig_send-refines}
use libevsig.Send.Cleanup.{sig_cleanup-fault, catchall-fault}
use libevsig.Send.Setup.{sig_init-Models}
use libevsig.Tests.{counting, failure, new_thread}
use libevsig.Tests.Vectors.{
  one, two, one-Holds, two-Holds, catching, answering, restarting, outer_point, first_action,
  second_action,
}

-- Two handlers, a restart made before anything was pushed, and two actions since.
abbrev pub set_up : Thread ℕ
set_up = record {
  handlers = two answering catching;
  restarts = one restarting;
  unwind_stack = two second_action first_action;
  unwind_init_ref = 1;
  tid = 7;
  global = init;
  world = 0;
}

abbrev pub model : Model ℕ
model = record {
  handlers = answering ∷ catching ∷ [];
  restarts = restarting ∷ [];
  actions = second_action ∷ first_action ∷ [];
  unwind_init_ref = 1;
  tid = 7;
  global = init;
  world = 0;
}

pub set_up-Models : Models set_up model
set_up-Models = record {
  handlers = two-Holds answering catching;
  restarts = one-Holds restarting;
  actions = two-Holds second_action first_action;
  same_ref = refl;
  same_tid = refl;
  same_global = refl;
  same_world = refl;
}

-- Both actions run.
unwind-refines_example :
    Lands counting
      (unwind counting 3 outer_point set_up)
      (outer_point, record model { actions = []; world = 2 })
unfolding unwind_to_point
unwind-refines_example =
    unwind-refines counting 3 outer_point set_up model set_up-Models (omega arith)

-- The handler on top selects restart type 1000.
sig_send-refines_example :
    (t : Thread ℕ) × (sig_send counting 3 failure set_up ≡ ok (landed outer_point t))
    × Models t (record model { actions = []; world = 2 })
unfolding unwind_to_point
sig_send-refines_example =
    sig_send-refines counting 3 failure set_up model set_up-Models (omega arith)

abbrev scoped_handler : UnwindEntry
scoped_handler = record { h = unwind_handler_sig_rm_handler; userdata = 2 }

abbrev in_scope : Thread ℕ
in_scope = record set_up { unwind_stack = one scoped_handler }

abbrev scope_model : Model ℕ
scope_model = record model { actions = scoped_handler ∷ [] }

in_scope-Models : Models in_scope scope_model
in_scope-Models = record {
  handlers = two-Holds answering catching;
  restarts = one-Holds restarting;
  actions = one-Holds scoped_handler;
  same_ref = refl;
  same_tid = refl;
  same_global = refl;
  same_world = refl;
}

cleaning_in_scope : sig_cleanup counting 4 in_scope ≡ fault
cleaning_in_scope =
    sig_cleanup-fault counting 3 in_scope scope_model scoped_handler [] in_scope-Models refl refl
      (omega arith, omega arith)

catchall-fault_example : catchall counting 4 33 44 in_scope ≡ fault
catchall-fault_example =
    catchall-fault counting 3 33 44 in_scope scope_model scoped_handler [] in_scope-Models refl refl
      (omega arith, omega arith) refl

abbrev registered : Signal
registered = record init {
  threadlist = record { block = cells (some 7 ∷ replicate 7 none); alloc = 8; fill = 1 };
  shutdown_thread_started = true;
}

registers :
    register_global true true false new_thread ≡ ok (record new_thread { global = registered })
unfolding register_global any_from insert_thread insert_into start_thread
registers = refl

sig_init-Models_example : Yields (sig_init true true false new_thread) (λ u. Models u (record {
  handlers = catching ∷ [];
  restarts = [];
  actions = [];
  unwind_init_ref = 1;
  tid = 7;
  global = registered;
  world = 0;
}))
sig_init-Models_example =
    sig_init-Models true false new_thread (record new_thread { global = registered }) registers refl

fail_available : sig_restart_available set_up.restarts signal_fail 1000 ≡ ok true
unfolding sig_restart_available find_last load
fail_available = refl

sig_restart_available-run_restart_example :
    (e : RestartEntry) × (restart_for signal_fail 1000 model.restarts ≡ some e)
    × (run_restart counting 3 signal_fail 1000 1 set_up ≡ jump (unwind counting 3 e.p set_up))
sig_restart_available-run_restart_example =
    sig_restart_available-run_restart counting 3 signal_fail 1000 set_up model set_up-Models
      fail_available
