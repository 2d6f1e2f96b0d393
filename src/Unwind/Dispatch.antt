-- ===== src/Unwind/Dispatch.antt =====
-- The part of src/libevsig/unwind.c that asks all threads to unwind: the handler that the library
-- installs for signals of the operating system, and `unwind_all`.
use libevsig.Base.{ℕ, ◌<◌, ◌≤◌, ◌≡◌, refl, true, List, Result, ok, exit, hang, ◌>>=◌, length}
use libevsig.Vector.{Yields}
use libevsig.Shutdown.{Signal, Callback, Surroundings, send_async, shutdown_thread_if_started}
use libevsig.Shutdown.Lists.{Tracks}
use libevsig.Shutdown.Aftermath.{Stays, elapsed}
use libevsig.Shutdown.Process.{IsAsked, shutdown_thread-exits}

-- The signals that the handler knows by name, and any other number.
pub data SystemSignal : Type 0 where
  sigint sigterm sigsegv sighup sigquit sigill sigpipe sigalrm sigsys sigstkflt sigabrt sigfpe :
      SystemSignal
  other_number : ℕ → SystemSignal

-- What it prints.
pub data Text : Type 0 where
  received_text cancelling_text unknown_text : Text
  name_text : SystemSignal → Text

abbrev pub signal_text : SystemSignal → Text
signal_text (other_number n) = unknown_text
signal_text sig = name_text sig

unfoldable pub unwind_all : Signal → Result Signal
unfolding send_async
unwind_all global = send_async global true

-- `_sighandle_dispatch`
unfoldable pub sighandle_dispatch :
    {W : Type 0} → (Text → W → W) → SystemSignal → Signal → W → Result (Signal × W)
unfolding send_async
sighandle_dispatch print sig global w = do
  let w' = print cancelling_text (print (signal_text sig) (print received_text w))
  global' ← send_async global true
  ok (global', w')

module _ (around : Surroundings)
    (told : (cb ud : ℕ) (s : Signal) (ts : List ℕ)
      → Tracks s.threadlist ts
      → Yields (around.run_callback cb ud s) (Stays IsAsked s))
    (slept : (k : ℕ) (s : Signal) (ts : List ℕ)
      → Tracks s.threadlist ts
      → Yields (around.during_sleep k s) (Stays IsAsked s)) where
  -- A signal of the operating system that arrives while nobody holds `master_mutex`, after a shutdown
  -- thread has been started for the global signal, ends the process: the handler returns with that
  -- mutex free and with `shutdown_mutex`, on which the shutdown thread waits, free too; and the
  -- shutdown thread then calls `exit(1)`, whether the global signal was sent before or not. For that,
  -- callbacks and sleeps return, leave the callbacks, the mutex and the request alone and the list of
  -- threads in order, and the fuel is above the number of callbacks and above the round `n` by which
  -- the time is up.
  pub sighandle_dispatch-exits :
      {W : Type 0} (print : Text → W → W) (sig : SystemSignal) (s : Signal) (w : W) (fuel n : ℕ)
      (ts : List ℕ) (cs : List Callback)
      → s.master_mutex ≡ 0
      → s.shutdown_thread_started ≡ true
      → Tracks s.threadlist ts
      → Tracks s.callbacks cs
      → 5000 ≤ elapsed around (around.time_ms 0) n
      → length cs < fuel
      → n < fuel
      → Yields (sighandle_dispatch print sig s w) (λ r.
        (r.0.shutdown_mutex ≡ 0)
        × (r.0.master_mutex ≡ 0)
        × (shutdown_thread_if_started around fuel r.0 ≡ exit 1))
  unfolding sighandle_dispatch send_async
  sighandle_dispatch-exits print sig s w fuel n ts cs unlocked started listed called late enough_cb
        enough =
      let asked : Signal = record s {
        shutdown_thread_exit = true;
        shutdown_mutex = 0;
        master_mutex = 0;
      } in
      (
        (asked, print cancelling_text (print (signal_text sig) (print received_text w))),
        rw unlocked refl,
        (
          refl,
          refl,
          shutdown_thread-exits around told slept fuel n asked ts cs started refl refl refl listed
              called late enough_cb enough,
        ),
      )

-- A signal of the operating system that interrupts a thread inside a critical section of the global
-- signal never returns: the handler waits for the mutex that the interrupted code holds.
pub sighandle_dispatch-deadlock :
    {W : Type 0} (print : Text → W → W) (sig : SystemSignal) (s : Signal) (w : W)
    → s.master_mutex ≡ 1
    → sighandle_dispatch print sig s w ≡ hang
unfolding sighandle_dispatch send_async
sighandle_dispatch-deadlock print sig s w held = rw held refl
