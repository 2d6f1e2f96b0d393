-- ===== src/Shutdown/Sending.antt =====
-- `evsig_thread_shutdown_signal_send_block`, and the two readers of the signal.
use libevsig.Base.{
  ℕ, zero, suc, ◌+◌, ◌-◌, ◌%◌, ◌^◌, Bool, true, false, Result, ok, exit, hang, ◌>>=◌, ltb, leb,
  ◌==◌, if◌then◌else◌,
}
use libevsig.Memory.{load, free}
use libevsig.Mutex.{evsig_lock, await_unlock, evsig_unlock, evsig_ensure_locked}
use libevsig.Shutdown.Ops.{Signal, no_entries}

-- `evsig_thread_shutdown_p`: the argument is not looked at.
unfoldable pub shutdown_p : Signal → Signal → Bool
shutdown_p global s = global.shutdown

-- What goes on around a send: the callbacks, by address and user data; what the other threads do to
-- the signal in each sleep; and `evsig_time_ms()` after it.
pub record Surroundings : Type 0 where
  pub run_callback : ℕ → ℕ → Signal → Result Signal
  pub during_sleep : ℕ → Signal → Result Signal
  pub time_ms : ℕ → ℕ

-- `free(s->callbacks)` and `free(s->threadlist)`, with the pointers and the counts that they leave.
unfoldable pub free_lists : Signal → Result Signal
unfolding free
free_lists s = do
  callbacks ← free s.callbacks.block
  threadlist ← free s.threadlist.block
  ok (record s {
    callbacks = record { block = callbacks; alloc = 0; fill = 0 };
    threadlist = no_entries;
  })

-- The end of `_shutdown_thread`: it ends the process or locks itself out again.
unfoldable pub finish : Signal → Result Signal
unfolding evsig_lock evsig_unlock evsig_ensure_locked
finish s = do
  held ← evsig_lock s.master_mutex
  if s.shutdown_thread_exit
      then exit 1
      else ok (record s {
        shutdown_mutex = evsig_ensure_locked s.shutdown_mutex;
        shutdown_thread_started = false;
        master_mutex = evsig_unlock held;
      })

module _ (around : Surroundings) where
  -- The callbacks from index `i` on are called with the mutex held.
  unfoldable pub notify : ℕ → ℕ → Signal → Result Signal
  unfolding load
  notify zero i s = hang
  notify (suc fuel) i s =
      let rest = (do
        c ← load s.callbacks.block i
        s' ← around.run_callback c.cb c.ud s
        notify fuel (suc i) s') in
      if ltb i s.callbacks.fill then rest else ok s

  -- The polling loop, from its `k`-th round on. The result says whether the time ran out; time is
  -- counted in `uint64_t`.
  unfoldable pub poll : ℕ → ℕ → ℕ → ℕ → Signal → Result (Bool × Signal)
  unfolding evsig_lock evsig_unlock
  poll zero start timeout_ms k s = hang
  poll (suc fuel) start timeout_ms k s =
      let sleeps = (do
        s' ← around.during_sleep k s
        let again = poll fuel start timeout_ms (suc k) s'
        if leb timeout_ms ((around.time_ms (suc k) + 2 ^ 64 - start) % 2 ^ 64)
            then ok (true, s')
            else again) in
      evsig_lock s.master_mutex >>= λ held. if s.threadlist.fill == 0 then ok (false, s) else sleeps

  -- The fuel is for the callbacks and for the rounds of the polling loop.
  unfoldable pub send_block : ℕ → Signal → ℕ → Result (Bool × Signal)
  unfolding notify poll free_lists evsig_lock evsig_unlock
  send_block fuel s timeout_ms = if s.shutdown then ok (false, s) else (do
    held ← evsig_lock s.master_mutex
    told ← notify fuel 0 (record s { shutdown = true; master_mutex = held })
    (late, polled) ←
        poll fuel (around.time_ms 0) timeout_ms 0
          (record told { master_mutex = evsig_unlock told.master_mutex })
    s' ← free_lists polled
    ok (late, s'))

  -- `_shutdown_thread` of the global signal, from its wait for `shutdown_mutex` on.
  unfoldable pub shutdown_thread_global : ℕ → Signal → Result Signal
  unfolding await_unlock send_block finish
  shutdown_thread_global fuel global = do
    free ← await_unlock global.shutdown_mutex
    (late, s) ← send_block fuel global 5000
    finish s

  -- What the shutdown thread of the global signal does, if `register_thread` has started one.
  unfoldable pub shutdown_thread_if_started : ℕ → Signal → Result Signal
  unfolding shutdown_thread_global
  shutdown_thread_if_started fuel global =
      if global.shutdown_thread_started then shutdown_thread_global fuel global else ok global

  -- `_shutdown_thread` of any other signal: it sends the global one, too. The result is the global
  -- signal and its own.
  unfoldable pub shutdown_thread_other : ℕ → Signal → Signal → Result (Signal × Signal)
  unfolding await_unlock send_block finish
  shutdown_thread_other fuel global s = do
    free ← await_unlock s.shutdown_mutex
    (late, global') ← send_block fuel global 5000
    s' ← finish s
    ok (global', s')
