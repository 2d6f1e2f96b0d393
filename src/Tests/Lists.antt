-- ===== src/Tests/Lists.antt =====
-- The laws of the shutdown signal's two lists, on two entries.
use libevsig.Base.{ℕ, ◌*◌, ◌==◌, ◌≡◌, refl, inl, Bool, true, List, [], ◌∷◌, arith, ok, fault, hang}
use libevsig.Vector.{Holds, Yields}
use libevsig.Shutdown.{
  Signal, Callback, init, no_entries, register_thread, confirm_shutdown, register_cb, unregister_cb,
  Surroundings, send_block, compact,
}
use libevsig.Shutdown.Shift.{compact-Holds}
use libevsig.Shutdown.Lists.{Tracks}
use libevsig.Shutdown.Threads.{WaitsFor, confirm_shutdown-WaitsFor, register_thread-WaitsFor}
use libevsig.Shutdown.Callbacks.{Notifies, register_cb-Notifies, unregister_cb-Notifies}
use libevsig.Shutdown.Aftermath.{Stays, send_block-dangling, send_block-deadlock}
use libevsig.Memory.{load}
use libevsig.Tests.Vectors.{two, two-Holds}

abbrev is_seven : ℕ → Bool
is_seven n = n == 7

compact-Holds_example : Yields (compact is_seven (two 9 7)) (λ w. Holds w (9 ∷ []) × (w.fill ≡ 1))
compact-Holds_example = compact-Holds is_seven (two 9 7) (9 ∷ 7 ∷ []) (two-Holds 9 7)

abbrev pub older : Callback
older = record { id = 1; cb = 20; ud = 30 }

abbrev pub newer : Callback
newer = record { id = 2; cb = 21; ud = 31 }

abbrev pub busy : Signal
busy = record init {
  callbacks = two newer older;
  callbacks_last_insert_id = 2;
  threadlist = two 9 7;
  shutdown_thread_started = true;
}

pub waiting : WaitsFor busy (9 ∷ 7 ∷ [])
waiting = record { unlocked = refl; listed = inl (two-Holds 9 7, omega arith) }

pub notifying : Notifies busy (newer ∷ older ∷ [])
notifying = record { unlocked = refl; listed = inl (two-Holds newer older, omega arith) }

confirm_shutdown-WaitsFor_example : Yields (confirm_shutdown busy 7) (λ s'. WaitsFor s' (9 ∷ []))
confirm_shutdown-WaitsFor_example = confirm_shutdown-WaitsFor busy 7 (9 ∷ 7 ∷ []) waiting

register_thread-WaitsFor_example :
    Yields
      (register_thread true true busy 8)
      (λ s'. WaitsFor s' (8 ∷ 9 ∷ 7 ∷ []) × (s'.shutdown_thread_started ≡ true))
register_thread-WaitsFor_example = register_thread-WaitsFor busy 8 (9 ∷ 7 ∷ []) waiting

adds_one : Yields (register_cb true busy 22 32) (λ r.
    (r.0 ≡ 3)
    × (r.1.callbacks_last_insert_id ≡ r.0)
    × Notifies r.1 (record { id = r.0; cb = 22; ud = 32 } ∷ newer ∷ older ∷ []))
adds_one = register_cb-Notifies busy 22 32 (newer ∷ older ∷ []) notifying

drops_one : Yields (unregister_cb busy 1) (λ s'. Notifies s' (newer ∷ []))
drops_one = unregister_cb-Notifies busy 1 (newer ∷ older ∷ []) notifying

-- Callbacks and threads that do nothing, a second in each sleep.
abbrev pub quiet : Surroundings
quiet = record {
  run_callback = λ cb ud s. ok s;
  during_sleep = λ k s. ok s;
  time_ms = λ k. 1000 * k;
}

pub quiet-Stays :
    (Kept : Signal → Type 0) (s : Signal) (ts : List ℕ)
    → Tracks s.threadlist ts
    → Yields (ok s) (Stays Kept s)
quiet-Stays Kept s ts listed = (
  s,
  refl,
  record { callbacks = refl; mutex = refl; threads = ts; listed = listed; kept = λ k. k },
)

send_block-dangling_example : Yields (send_block quiet 20 busy 5000) (λ r.
    (r.1.threadlist ≡ no_entries)
    × ((id : ℕ) → unregister_cb r.1 id ≡ fault)
    × ((room : Bool) (cb ud : ℕ) → register_cb room r.1 cb ud ≡ fault))
send_block-dangling_example =
    send_block-dangling quiet (λ s. Unit) (λ cb ud. quiet-Stays (λ s. Unit))
      (λ k. quiet-Stays (λ s. Unit)) 20 5 5000 busy (9 ∷ 7 ∷ []) (newer ∷ older ∷ []) refl refl
      waiting.listed (two-Holds newer older) (omega arith) (omega arith) (omega arith)

-- A program whose callbacks unregister the callback whose id is their user data.
abbrev unregistering : Surroundings
unregistering = record quiet { run_callback = λ cb ud s. unregister_cb s ud }

loaded : load busy.callbacks.block 0 ≡ ok older
unfolding load
loaded = refl

send_block-deadlock_example : send_block unregistering 20 busy 5000 ≡ hang
send_block-deadlock_example =
    send_block-deadlock unregistering 19 5000 30 busy older refl refl (omega arith) loaded
      (λ s'. refl)
