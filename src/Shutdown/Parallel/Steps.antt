-- ===== src/Shutdown/Parallel/Steps.antt =====
-- Threads that call the operations of one signal, in any interleaving of their statements.
use libevsig.Base.{ℕ, Bool, true, List, [], ◌∷◌, Result, ok, ◌>>=◌, ◌==◌, if◌then◌else◌}
use libevsig.Memory.{null, free}
use libevsig.Shutdown.Ops.{
  Signal, register_thread, confirm_shutdown, register_cb, unregister_cb, send_async,
}
use libevsig.Shutdown.Parallel.Moves.{testing_room, rounds}
use libevsig.Shutdown.Parallel.Sections.{
  After, returns, polls, sleeps, frees, Section, searching, shifting_threads, growing_callbacks,
  shifting_callbacks, asking, notifying, checking, Next, goes_on, leaves, perform,
}

-- The calls of the operations that work behind the mutex.
pub data Call : Type 0 where
  registers confirms : ℕ → Call
  adds : ℕ → ℕ → Call
  drops : ℕ → Call
  asks : Bool → Call

abbrev pub begin : Call → Section
begin (registers t) = searching t 0
begin (confirms t) = shifting_threads t (rounds 0 0)
begin (adds cb ud) = growing_callbacks cb ud testing_room
begin (drops id) = shifting_callbacks id (rounds 0 0)
begin (asks exit_process) = asking exit_process

-- What a thread can do when it does nothing else.
pub data Wish : Type 0 where
  calls : Call → Wish
  -- `send_block`
  sends : Wish

-- The statements that end a send: `free(s->callbacks)` and its two counts, `free(s->threadlist)`, its
-- pointer, and its two counts.
pub data Freeing : Type 0 where
  callbacks_block callbacks_alloc callbacks_fill : Freeing
  threadlist_block threadlist_null threadlist_alloc threadlist_fill : Freeing

-- Where a thread is.
pub data Phase : Type 0 where
  outside : Phase
  -- In `evsig_lock`, before the critical section of a call or of `send_block`.
  entering : Call → Phase
  entering_send : Section → Phase
  inside : Section → Phase
  -- In `send_block`, without the mutex.
  testing storing sleeping : Phase
  freeing : Freeing → Phase

-- The signal, the threads, and the calls in the order in which they took the mutex, the last first.
pub record System : Type 0 where
  pub signal : Signal
  pub phases : ℕ → Phase
  pub log : List Call

-- The next step of thread `thread`: `wish` is what it does if it is outside, and `granted` the answer
-- of the allocator or of `pthread_create`, or whether the time of a send is up.
pub record Event : Type 0 where
  pub thread : ℕ
  pub wish : Wish
  pub granted : Bool

abbrev pub put : ℕ → Phase → (ℕ → Phase) → ℕ → Phase
put t p phases u = if u == t then p else phases u

abbrev pub moved : ℕ → Phase → System → System
moved t p m = record m { phases = put t p m.phases }

abbrev pub wished : Wish → Phase
wished (calls c) = entering c
wished sends = testing

abbrev pub left : After → Phase
left returns = outside
left polls = entering_send checking
left sleeps = sleeping
left frees = freeing callbacks_block

abbrev pub gone : Next → Phase
gone (goes_on rest) = inside rest
gone (leaves a) = left a

abbrev pub held : Signal → Signal
held s = record s { master_mutex = 1 }

abbrev pub after_free : Freeing → Phase
after_free callbacks_block = freeing callbacks_alloc
after_free callbacks_alloc = freeing callbacks_fill
after_free callbacks_fill = freeing threadlist_block
after_free threadlist_block = freeing threadlist_null
after_free threadlist_null = freeing threadlist_alloc
after_free threadlist_alloc = freeing threadlist_fill
after_free threadlist_fill = outside

unfoldable pub free_step : Freeing → Signal → Result Signal
unfolding free
free_step callbacks_block s = do
  b ← free s.callbacks.block
  ok (record s { callbacks = record (s.callbacks) { block = b } })
free_step callbacks_alloc s = ok (record s { callbacks = record (s.callbacks) { alloc = 0 } })
free_step callbacks_fill s = ok (record s { callbacks = record (s.callbacks) { fill = 0 } })
free_step threadlist_block s = do
  b ← free s.threadlist.block
  ok (record s { threadlist = record (s.threadlist) { block = b } })
free_step threadlist_null s = ok (record s { threadlist = record (s.threadlist) { block = null } })
free_step threadlist_alloc s = ok (record s { threadlist = record (s.threadlist) { alloc = 0 } })
free_step threadlist_fill s = ok (record s { threadlist = record (s.threadlist) { fill = 0 } })

unfoldable pub act : Event → System → Phase → Result System
unfolding perform free_step
act e m outside = ok (moved e.thread (wished e.wish) m)
act e m (entering c) = ok (
    if m.signal.master_mutex == 0
    then record m {
      signal = held m.signal;
      phases = put e.thread (inside (begin c)) m.phases;
      log = c ∷ m.log;
    }
    else m)
act e m (entering_send section) = ok (
    if m.signal.master_mutex == 0
    then record m { signal = held m.signal; phases = put e.thread (inside section) m.phases }
    else m)
act e m (inside section) = do
  (next, s) ← perform e.granted section m.signal
  ok (record m { signal = s; phases = put e.thread (gone next) m.phases })
act e m testing = ok (moved e.thread (if m.signal.shutdown then outside else storing) m)
act e m storing = ok (record m {
  signal = record (m.signal) { shutdown = true };
  phases = put e.thread (entering_send (notifying 0)) m.phases;
})
act e m sleeping =
    ok (moved e.thread (if e.granted then freeing callbacks_block else entering_send checking) m)
act e m (freeing f) = do
  s ← free_step f m.signal
  ok (record m { signal = s; phases = put e.thread (after_free f) m.phases })

unfoldable pub advance : Event → System → Result System
unfolding act
advance e m = act e m (m.phases e.thread)

-- The events of a schedule, the first one first.
unfoldable pub run : List Event → System → Result System
unfolding advance
run [] m = ok m
run (e ∷ es) m = advance e m >>= run es

abbrev pub start : Signal → System
start s = record { signal = s; phases = λ t. outside; log = [] }

-- The same operation by a thread that is alone.
unfoldable pub operate : Call → Signal → Result Signal
unfolding register_thread confirm_shutdown register_cb unregister_cb send_async
operate (registers t) s = register_thread true true s t
operate (confirms t) s = confirm_shutdown s t
operate (adds cb ud) s = do (id, s') ← register_cb true s cb ud; ok s'
operate (drops id) s = unregister_cb s id
operate (asks exit_process) s = send_async s exit_process
