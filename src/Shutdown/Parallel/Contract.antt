-- ===== src/Shutdown/Parallel/Contract.antt =====
-- What each operation promises of the lists that a signal stands for.
use libevsig.Base.{
  ℕ, ◌+◌, ◌%◌, ◌^◌, ◌≡◌, refl, ap, subst, inl, inr, Bool, true, Bool-cases, List, [], ◌∷◌, any,
  if◌then◌else◌,
}
use libevsig.Vector.{Yields}
use libevsig.Shutdown.Rounds.{others}
use libevsig.Shutdown.Lists.{Tracks, drop_from-Tracks, insert_into-Tracks, any_from-Tracks}
use libevsig.Shutdown.Ops.{
  Signal, Callback, insert_thread, register_thread, confirm_shutdown, register_cb, unregister_cb,
  send_async,
}
use libevsig.Shutdown.Threads.{is_thread, with_thread, without_thread, start_thread-ok}
use libevsig.Shutdown.Callbacks.{is_callback}
use libevsig.Shutdown.Parallel.Steps.{Call, registers, confirms, adds, drops, asks, operate}

-- The threads and callbacks of a signal, the last registered first, the last id given, and whether
-- the process is to be ended.
pub record Board : Type 0 where
  pub threads : List ℕ
  pub callbacks : List Callback
  pub last_id : ℕ
  pub exits : Bool

pub record Shows (s : Signal) (b : Board) : Type 0 where
  pub unlocked : s.master_mutex ≡ 0
  pub threads : Tracks s.threadlist b.threads
  pub callbacks : Tracks s.callbacks b.callbacks
  pub last_id : s.callbacks_last_insert_id ≡ b.last_id
  pub exits : s.shutdown_thread_exit ≡ b.exits

abbrev pub effect : Call → Board → Board
effect (registers t) b = record b { threads = with_thread t b.threads }
effect (confirms t) b = record b { threads = without_thread t b.threads }
effect (adds cb ud) b =
    let id = (b.last_id + 1) % 2 ^ 64 in
    record b { callbacks = record { id = id; cb = cb; ud = ud } ∷ b.callbacks; last_id = id }
effect (drops id) b = record b { callbacks = others (is_callback id) b.callbacks }
effect (asks exit_process) b = record b { exits = exit_process }

-- The effects of calls one after the other, the last call first.
abbrev pub effects : List Call → Board → Board
effects [] b = b
effects (c ∷ cs) b = effect c (effects cs b)

registered-Shows :
    (t : ℕ) (s : Signal) (b : Board)
    → Shows s b
    → Yields (register_thread true true s t) (λ s'. Shows s' (effect (registers t) b))
unfolding register_thread insert_thread
registered-Shows t s b w = elim (Bool-cases (any (is_thread t) b.threads)) [
  | inl listed ↦ (
    record s { master_mutex = 0 },
    rw (w.unlocked, any_from-Tracks (is_thread t) s.threadlist b.threads w.threads, listed),
    record {
      unlocked = refl;
      threads = rw listed w.threads;
      callbacks = w.callbacks;
      last_id = w.last_id;
      exits = w.exits;
    },
  )
  | inr new ↦
      let (list, inserted, tracked) = insert_into-Tracks s.threadlist t b.threads w.threads in
      (
        record s {
          threadlist = list;
          master_mutex = 0;
          shutdown_thread_started = true;
          shutdown_mutex = if s.shutdown_thread_started then s.shutdown_mutex else 1;
        },
        rw (
          w.unlocked,
          any_from-Tracks (is_thread t) s.threadlist b.threads w.threads,
          new,
          inserted,
          start_thread-ok (record s { threadlist = list; master_mutex = 0 }),
        ),
        record {
          unlocked = refl;
          threads = rw new tracked;
          callbacks = w.callbacks;
          last_id = w.last_id;
          exits = w.exits;
        },
      )
]

-- Each operation, done by a thread that is alone, succeeds and has its effect.
pub operate-Shows :
    (c : Call) (s : Signal) (b : Board)
    → Shows s b
    → Yields (operate c s) (λ s'. Shows s' (effect c b))
unfolding operate confirm_shutdown register_cb unregister_cb send_async
operate-Shows (registers t) s b w = registered-Shows t s b w
operate-Shows (confirms t) s b w =
    let (list, dropped, tracked) =
      drop_from-Tracks (is_thread t) s.threadlist b.threads w.threads in
    (
      record s { threadlist = list; master_mutex = 0 },
      rw (w.unlocked, dropped),
      record {
        unlocked = refl;
        threads = tracked;
        callbacks = w.callbacks;
        last_id = w.last_id;
        exits = w.exits;
      },
    )
operate-Shows (adds cb ud) s b w =
    let c : Callback = record {
      id = (s.callbacks_last_insert_id + 1) % 2 ^ 64;
      cb = cb;
      ud = ud;
    } in
    let (list, inserted, tracked) = insert_into-Tracks s.callbacks c b.callbacks w.callbacks in
    (
      record s { callbacks = list; callbacks_last_insert_id = c.id; master_mutex = 0 },
      rw (w.unlocked, inserted),
      record {
        unlocked = refl;
        threads = w.threads;
        callbacks =
            subst
              (λ n. Tracks list (record { id = (n + 1) % 2 ^ 64; cb = cb; ud = ud } ∷ b.callbacks))
              w.last_id tracked;
        last_id = ap (λ n. (n + 1) % 2 ^ 64) w.last_id;
        exits = w.exits;
      },
    )
operate-Shows (drops id) s b w =
    let (list, dropped, tracked) =
      drop_from-Tracks (is_callback id) s.callbacks b.callbacks w.callbacks in
    (
      record s { callbacks = list; master_mutex = 0 },
      rw (w.unlocked, dropped),
      record {
        unlocked = refl;
        threads = w.threads;
        callbacks = tracked;
        last_id = w.last_id;
        exits = w.exits;
      },
    )
operate-Shows (asks exit_process) s b w = (
  record s { shutdown_thread_exit = exit_process; shutdown_mutex = 0; master_mutex = 0 },
  rw w.unlocked refl,
  record {
    unlocked = refl;
    threads = w.threads;
    callbacks = w.callbacks;
    last_id = w.last_id;
    exits = refl;
  },
)
