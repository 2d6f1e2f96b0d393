-- ===== src/Tests.antt =====
-- Runs of the definitions at concrete inputs, and the theorems applied at some.
mod Vectors
mod Stacks
mod Lists
mod Sends
mod Scoped
mod Numbers
mod Contenders
mod Threads
mod Parallel
mod Endings
mod Shutdowns
mod Calls
use libevsig.Base.{
  ℕ, suc, ◌+◌, ◌≡◌, refl, true, false, none, some, [], ◌∷◌, Result, ok, exit, fault, hang, ◌>>=◌,
}
use libevsig.Memory.{null, freed}
use libevsig.Vector.{Vector}
use libevsig.Shutdown.{init, no_entries, register_thread}
use libevsig.Signals.Names.{signal_fail}
use libevsig.Thread.{
  user_action, user_handler, UnwindEntry, Thread, Program, Flow, returned, landed, thread_exited,
}
use libevsig.Send.{Message, sig_init, autopop_restart, autopop_handler, sig_send}
use libevsig.Unwind.{unwind_action}

-- A program that counts the unwind actions that it runs; every handler selects restart type 1000.
abbrev pub counting : Program ℕ
counting = record {
  on_unwind = λ k u w. (suc w, none);
  on_signal = λ k t u m d w. (1000, w);
  cleanup = λ f d w. w;
  raise_sigint = λ w. w;
  report = λ s m w. w;
}

abbrev pub new_thread : Thread ℕ
new_thread = record {
  handlers = no_entries;
  restarts = no_entries;
  unwind_stack = no_entries;
  unwind_init_ref = 0;
  tid = 7;
  global = init;
  world = 0;
}

abbrev pub failure : Message
failure = record { sig_type = signal_fail; msg = 0; signal_data = 0; signal_data_cleanup_func = 0 }

abbrev pub worlds : Result (Flow ℕ) → ℕ
worlds (ok (returned t)) = 100 + t.world
worlds (ok (landed p t)) = 200 + p.jbuf + t.world
worlds (ok (thread_exited t)) = 300 + t.world
worlds (exit n) = 400 + n
worlds fault = 500
worlds hang = 600

example : Result (Flow ℕ)
unfolding sig_init autopop_handler autopop_restart unwind_action sig_send
example = do
  t ← sig_init true true true new_thread
  (h, t1) ← autopop_handler true t signal_fail (user_handler 0) 0
  (r, p, t2) ← autopop_restart true t1 signal_fail 1000 42
  t3 ← unwind_action true t2 (record { h = user_action 5; userdata = 0 })
  sig_send counting 10 failure t3

unhandled : Result (Flow ℕ)
unfolding sig_init autopop_handler autopop_restart unwind_action sig_send
unhandled = do
  t ← sig_init true true true new_thread
  (r, p, t2) ← autopop_restart true t signal_fail 1000 42
  t3 ← unwind_action true t2 (record { h = user_action 5; userdata = 0 })
  sig_send counting 10 failure t3

example_lands : worlds example ≡ 243
unfolding example
example_lands = refl

unhandled_faults : worlds unhandled ≡ 500
unfolding unhandled
unhandled_faults = refl
