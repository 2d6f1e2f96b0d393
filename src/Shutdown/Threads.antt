-- ===== src/Shutdown/Threads.antt =====
-- The list of threads that a shutdown waits for, against a list without duplicates.
use libevsig.Base.{
  ℕ, ◌≡◌, refl, inl, inr, Bool, true, not, ◌||◌, List, ◌∷◌, ok, arith, ◌==◌, Bool-cases,
  if◌then◌else◌, any,
}
use libevsig.Vector.{Vector, Yields}
use libevsig.Shutdown.Rounds.{others}
use libevsig.Shutdown.Lists.{Tracks, drop_from-Tracks, insert_into-Tracks, any_from-Tracks}
use libevsig.Shutdown.Ops.{Signal, start_thread, insert_thread, register_thread, confirm_shutdown}

abbrev pub is_thread : ℕ → ℕ → Bool
is_thread t u = u == t

-- A signal that waits for these threads, the last registered first, and whose mutex nobody holds.
pub record WaitsFor (s : Signal) (ts : List ℕ) : Type 0 where
  pub unlocked : s.master_mutex ≡ 0
  pub listed : Tracks s.threadlist ts

abbrev pub with_thread : ℕ → List ℕ → List ℕ
with_thread t ts = if any (is_thread t) ts then ts else t ∷ ts

abbrev pub without_thread : ℕ → List ℕ → List ℕ
without_thread t ts = others (is_thread t) ts

-- `confirm_shutdown` changes the list and frees the mutex.
pub confirm_shutdown-ok :
    (s : Signal) (t : ℕ) (ts : List ℕ)
    → s.master_mutex ≡ 0
    → Tracks s.threadlist ts
    → (list : Vector ℕ) × (confirm_shutdown s t
        ≡ ok (record s { threadlist = list; master_mutex = 0 }))
      × Tracks list (without_thread t ts)
unfolding confirm_shutdown
confirm_shutdown-ok s t ts unlocked listed =
    let (list, dropped, tracked) = drop_from-Tracks (is_thread t) s.threadlist ts listed in
    (list, rw (unlocked, dropped), tracked)

-- On a mutex that nobody holds, `confirm_shutdown` takes every mention of the thread off the list,
-- keeps the others in order, and frees the list with the last of them.
pub confirm_shutdown-WaitsFor :
    (s : Signal) (t : ℕ) (ts : List ℕ)
    → WaitsFor s ts
    → Yields (confirm_shutdown s t) (λ s'. WaitsFor s' (without_thread t ts))
confirm_shutdown-WaitsFor s t ts w =
    let (list, confirmed, tracked) = confirm_shutdown-ok s t ts w.unlocked w.listed in
    (
      record s { threadlist = list; master_mutex = 0 },
      confirmed,
      record { unlocked = refl; listed = tracked },
    )

pub start_thread-ok :
    (s : Signal)
    → start_thread true s
      ≡ ok (record s {
        shutdown_mutex = if s.shutdown_thread_started then s.shutdown_mutex else 1;
        shutdown_thread_started = true;
      })
unfolding start_thread
start_thread-ok s = ground arith

-- If there is memory and a thread can be made, `register_thread` adds the thread unless it is listed;
-- the shutdown thread is started with it, if it does not run yet.
pub register_thread-WaitsFor :
    (s : Signal) (t : ℕ) (ts : List ℕ)
    → WaitsFor s ts
    → Yields (register_thread true true s t) (λ s'.
      WaitsFor s' (with_thread t ts)
      × (s'.shutdown_thread_started ≡ (s.shutdown_thread_started || not (any (is_thread t) ts))))
unfolding register_thread insert_thread
register_thread-WaitsFor s t ts w = elim (Bool-cases (any (is_thread t) ts)) [
  | inl listed ↦ (
    record s { master_mutex = 0 },
    rw (w.unlocked, any_from-Tracks (is_thread t) s.threadlist ts w.listed, listed),
    (rw listed (record { unlocked = refl; listed = w.listed }), rw listed (ground arith)),
  )
  | inr new ↦
      let (list, inserted, tracked) = insert_into-Tracks s.threadlist t ts w.listed in
      (
        record s {
          threadlist = list;
          master_mutex = 0;
          shutdown_thread_started = true;
          shutdown_mutex = if s.shutdown_thread_started then s.shutdown_mutex else 1;
        },
        rw (
          w.unlocked,
          any_from-Tracks (is_thread t) s.threadlist ts w.listed,
          new,
          inserted,
          start_thread-ok (record s { threadlist = list; master_mutex = 0 }),
        ),
        (rw new (record { unlocked = refl; listed = tracked }), rw new (ground arith)),
      )
]
