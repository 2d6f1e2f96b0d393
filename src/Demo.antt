-- ===== src/Demo.antt =====
-- src/cli/main.c: the demonstration program, as code that uses the library. What it prints is left
-- to the program's own code, by number.
pub mod Thread
use libevsig.Base.{ℕ, zero, suc, Bool, true, Result, ok, hang, ◌>>=◌, if◌then◌else◌}
use libevsig.Shutdown.{Signal, register_thread, shutdown_p, confirm_shutdown}
use libevsig.Thread.{SigType}
use libevsig.Signals.Names.{signal_fail}
use libevsig.Send.{Message}
use libevsig.Script.{Code, done, leave, work, block, send, action, autopop}

abbrev pub sig_restart_main : SigType
sig_restart_main = 1000

abbrev pub sig_restart_middle : SigType
sig_restart_middle = 1001

abbrev pub sig_restart_top : SigType
sig_restart_top = 1002

-- "something bad happened"
abbrev pub something_bad : Message
something_bad = record {
  sig_type = signal_fail;
  msg = 500;
  signal_data = 0;
  signal_data_cleanup_func = 0;
}

-- Each restart prints its name and exits.
abbrev pub top_func : Code
top_func = autopop signal_fail sig_restart_top (work 3 (leave 1)) (send something_bad done)

-- The actions print that something is freed, and "hi".
abbrev pub middle_func : Code
middle_func = work 0 (
    action 1 501 (
      action 2 0 (autopop signal_fail sig_restart_middle (work 4 (leave 1)) (block top_func done))))

-- The block of `main`: it starts a thread, makes its restart, calls `middle_func`, and joins.
abbrev pub main_func : Code
main_func =
    block
      (work 5
        (autopop signal_fail sig_restart_main (work 6 (leave 1)) (block middle_func (work 7 done))))
      done

-- The loop of `thread`, from its `k`-th round on; `sleep k` is what the other threads do to the
-- signal in the round's sleep.
unfoldable pub thread_loop : ℕ → (ℕ → Signal → Result Signal) → ℕ → Signal → Result Signal
unfolding shutdown_p
thread_loop zero sleep k s = hang
thread_loop (suc fuel) sleep k s =
    let rest = sleep k s >>= thread_loop fuel sleep (suc k) in if shutdown_p s s then ok s else rest

-- `thread`, with the number of its thread.
unfoldable pub thread : ℕ → Bool → (ℕ → Signal → Result Signal) → ℕ → Signal → Result Signal
unfolding register_thread thread_loop confirm_shutdown
thread fuel created sleep t s = do
  registered ← register_thread true created s t
  asked ← thread_loop fuel sleep 0 registered
  confirm_shutdown asked t
