-- ===== src/Shutdown/Ops.antt =====
-- The state of a shutdown signal and the operations on it.
use libevsig.Base.{
  ℕ, ◌+◌, ◌*◌, ◌%◌, ◌^◌, Bool, true, false, Result, ok, exit, ◌>>=◌, leb, ◌==◌, if◌then◌else◌,
}
use libevsig.Memory.{null, realloc, free, is_null}
use libevsig.Vector.{Vector, any_from, append}
use libevsig.Mutex.{evsig_lock, evsig_unlock, evsig_ensure_locked}
use libevsig.Shutdown.Compact.{compact}

-- `evsig_thread_shutdown_cb`: function pointers and user data are addresses.
pub record Callback : Type 0 where
  pub id : ℕ
  pub cb : ℕ
  pub ud : ℕ

-- `evsig_thread_shutdown_signal`
pub record Signal : Type 0 where
  pub shutdown : Bool
  pub callbacks : Vector Callback
  pub callbacks_last_insert_id : ℕ
  pub threadlist : Vector ℕ
  pub master_mutex : ℕ
  pub shutdown_mutex : ℕ
  pub shutdown_thread_started : Bool
  pub shutdown_thread_exit : Bool

module _ {ℓ} {A : Type ℓ} where
  abbrev pub no_entries : Vector A
  no_entries = record { block = null; alloc = 0; fill = 0 }

  -- Room for eight entries, then twice as many as before; the process ends if there is no memory.
  unfoldable pub grow_list : Bool → Vector A → Result (Vector A)
  unfolding realloc
  grow_list room v =
      if leb v.alloc v.fill
      then (do
        let n = if v.alloc == 0 then 8 else v.alloc * 2
        b ← realloc room v.block n
        if is_null b then exit 1 else ok (record v { block = b; alloc = n }))
      else ok v

  -- `if (!fill) { free(list); list = NULL; alloc = 0; fill = 0; }`
  unfoldable pub free_if_empty : Vector A → Result (Vector A)
  unfolding free
  free_if_empty v = if v.fill == 0 then (do b ← free v.block; ok no_entries) else ok v

  -- The growth and the insertion, one after the other.
  unfoldable pub insert_into : Bool → Vector A → A → Result (Vector A)
  unfolding grow_list append
  insert_into room v a = grow_list room v >>= λ w. append w a

  -- The shift and the free, one after the other.
  unfoldable pub drop_from : (A → Bool) → Vector A → Result (Vector A)
  unfolding compact free_if_empty
  drop_from p v = compact p v >>= free_if_empty

-- `EVSIG_THREAD_SHUTDOWN_SIGNAL_INIT`
abbrev pub init : Signal
init = record {
  shutdown = false;
  callbacks = no_entries;
  callbacks_last_insert_id = 0;
  threadlist = no_entries;
  master_mutex = 0;
  shutdown_mutex = 1;
  shutdown_thread_started = false;
  shutdown_thread_exit = false;
}

-- The shutdown thread is started by the first registration. `created` is the success of
-- `pthread_create`.
unfoldable pub start_thread : Bool → Signal → Result Signal
unfolding evsig_ensure_locked
start_thread created s =
    if s.shutdown_thread_started
    then ok s
    else if created
    then ok (record s {
      shutdown_mutex = evsig_ensure_locked s.shutdown_mutex;
      shutdown_thread_started = true;
    })
    else exit 1

unfoldable pub insert_thread : Bool → Bool → Signal → ℕ → Result Signal
insert_thread room created s t = do
  list ← insert_into room s.threadlist t
  start_thread created (record s { threadlist = list })

unfoldable pub register_thread : Bool → Bool → Signal → ℕ → Result Signal
unfolding evsig_lock evsig_unlock
register_thread room created s t = do
  held ← evsig_lock s.master_mutex
  duplicate ← any_from (λ u. u == t) s.threadlist.block s.threadlist.fill 0
  s' ← if duplicate then ok s else insert_thread room created s t
  ok (record s' { master_mutex = evsig_unlock held })

unfoldable pub confirm_shutdown : Signal → ℕ → Result Signal
unfolding evsig_lock evsig_unlock
confirm_shutdown s t = do
  held ← evsig_lock s.master_mutex
  list ← drop_from (λ u. u == t) s.threadlist
  ok (record s { threadlist = list; master_mutex = evsig_unlock held })

-- The id is a `uint64_t`. The result is the new id and the signal.
unfoldable pub register_cb : Bool → Signal → ℕ → ℕ → Result (ℕ × Signal)
unfolding evsig_lock evsig_unlock
register_cb room s cb ud = do
  held ← evsig_lock s.master_mutex
  let id = (s.callbacks_last_insert_id + 1) % 2 ^ 64
  list ← insert_into room s.callbacks (record { id = id; cb = cb; ud = ud })
  ok (
    id,
    record s { callbacks = list; callbacks_last_insert_id = id; master_mutex = evsig_unlock held },
  )

unfoldable pub unregister_cb : Signal → ℕ → Result Signal
unfolding evsig_lock evsig_unlock
unregister_cb s id = do
  held ← evsig_lock s.master_mutex
  list ← drop_from (λ (c : Callback). c.id == id) s.callbacks
  ok (record s { callbacks = list; master_mutex = evsig_unlock held })

-- Sends without blocking: the shutdown thread, which waits on `shutdown_mutex`, is let go.
unfoldable pub send_async : Signal → Bool → Result Signal
unfolding evsig_lock evsig_unlock
send_async s exit_process = do
  held ← evsig_lock s.master_mutex
  ok (record s {
    shutdown_thread_exit = exit_process;
    shutdown_mutex = evsig_unlock s.shutdown_mutex;
    master_mutex = evsig_unlock held;
  })
