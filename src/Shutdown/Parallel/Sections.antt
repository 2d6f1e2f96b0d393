-- ===== src/Shutdown/Parallel/Sections.antt =====
-- What a thread does between `evsig_lock` and `evsig_unlock`, one statement at a time: an assignment, a
-- call, or the test of an `if` or of a loop. One step each are also the test of a `for` with the look at
-- the entry, or the call of the callback, under it; `realloc` with the test of its result, before which
-- the list has room and after which, at null, the process ends; the insertion with the count that it
-- raises; and the start of the shutdown thread, whose two fields are only used behind the mutex.
use libevsig.Base.{
  ℕ, zero, suc, ◌+◌, ◌%◌, ◌^◌, Bool, true, Option, none, some, Result, ok, hang, ◌>>=◌, ltb, ◌==◌,
  if◌then◌else◌,
}
use libevsig.Memory.{load}
use libevsig.Vector.{append}
use libevsig.Mutex.{evsig_unlock}
use libevsig.Shutdown.Ops.{Signal, Callback, start_thread}
use libevsig.Shutdown.Parallel.Moves.{Growth, testing_room, Shift, grow_step, shift_step}

-- Where a thread goes from its unlocking: it returns, or it is in `send_block`, before its polling
-- loop, before a sleep, or behind the loop.
pub data After : Type 0 where
  returns polls sleeps frees : After

-- The next statement, with the variables that it needs.
pub data Section : Type 0 where
  -- `register_thread`
  searching : ℕ → ℕ → Section
  growing_threads : ℕ → Growth → Section
  inserting_thread : ℕ → Section
  starting : Section
  -- `confirm_shutdown`
  shifting_threads : ℕ → Shift → Section
  -- `register_cb`
  growing_callbacks : ℕ → ℕ → Growth → Section
  inserting_callback : ℕ → ℕ → Section
  -- `unregister_cb`
  shifting_callbacks : ℕ → Shift → Section
  -- `send_async`
  asking : Bool → Section
  letting_go : Section
  -- `send_block`: the call of the callback with this index, and the look at the list of threads.
  notifying : ℕ → Section
  checking : Section
  unlocking : After → Section

-- What comes after a statement.
pub data Next : Type 0 where
  goes_on : Section → Next
  leaves : After → Next

-- The statement at a list that comes next, or the one behind them all.
abbrev pub then_at : {P : Type 0} → (P → Section) → Section → Option P → Next
then_at at behind (some p) = goes_on (at p)
then_at at behind none = goes_on behind

-- `room` is what the allocator, or `pthread_create`, answers. A callback leaves the signal alone: what
-- it makes other threads do are steps of their own.
unfoldable pub perform : Bool → Section → Signal → Result (Next × Signal)
unfolding grow_step append start_thread shift_step load evsig_unlock
perform room (searching t i) s =
    let looked = (do
      u ← load s.threadlist.block i
      ok (goes_on (if u == t then unlocking returns else searching t (suc i)), s)) in
    if ltb i s.threadlist.fill then looked else ok (goes_on (growing_threads t testing_room), s)
perform room (growing_threads t g) s = do
  (h, list) ← grow_step room g s.threadlist
  ok (then_at (growing_threads t) (inserting_thread t) h, record s { threadlist = list })
perform room (inserting_thread t) s = do
  list ← append s.threadlist t
  ok (goes_on starting, record s { threadlist = list })
perform room starting s = do s' ← start_thread room s; ok (goes_on (unlocking returns), s')
perform room (shifting_threads t d) s = do
  (e, list) ← shift_step (λ u. u == t) d s.threadlist
  ok (then_at (shifting_threads t) (unlocking returns) e, record s { threadlist = list })
perform room (growing_callbacks cb ud g) s = do
  (h, list) ← grow_step room g s.callbacks
  ok (then_at (growing_callbacks cb ud) (inserting_callback cb ud) h, record s { callbacks = list })
perform room (inserting_callback cb ud) s = do
  let id = (s.callbacks_last_insert_id + 1) % 2 ^ 64
  list ← append s.callbacks (record { id = id; cb = cb; ud = ud })
  ok (goes_on (unlocking returns), record s { callbacks = list; callbacks_last_insert_id = id })
perform room (shifting_callbacks id d) s = do
  (e, list) ← shift_step (λ (c : Callback). c.id == id) d s.callbacks
  ok (then_at (shifting_callbacks id) (unlocking returns) e, record s { callbacks = list })
perform room (asking exit_process) s =
    ok (goes_on letting_go, record s { shutdown_thread_exit = exit_process })
perform room letting_go s =
    ok (goes_on (unlocking returns), record s { shutdown_mutex = evsig_unlock s.shutdown_mutex })
perform room (notifying i) s =
    let called = (do c ← load s.callbacks.block i; ok (goes_on (notifying (suc i)), s)) in
    if ltb i s.callbacks.fill then called else ok (goes_on (unlocking polls), s)
perform room checking s =
    ok (goes_on (unlocking (if s.threadlist.fill == 0 then frees else sleeps)), s)
perform room (unlocking a) s =
    ok (leaves a, record s { master_mutex = evsig_unlock s.master_mutex })

-- The statements that are left, one after the other, with memory to be had.
unfoldable pub complete : ℕ → Section → Signal → Result Signal
unfolding perform
complete zero section s = hang
complete (suc n) section s = perform true section s >>= λ (next, s'). elim next [
  | goes_on rest ↦ complete n rest s'
  | leaves a ↦ ok s'
]
