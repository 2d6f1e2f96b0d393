-- ===== src/Shutdown/Process.antt =====
-- The shutdown thread, once it is let go.
use libevsig.Base.{
  ℕ, zero, suc, ◌<◌, ◌≤◌, ◌≡◌, refl, ◌∙◌, ap, sym, subst, inl, inr, true, List, ok, exit, ◌>>=◌,
  arith, Bool-cases, length,
}
use libevsig.Memory.{Block, null, freed, free}
use libevsig.Vector.{Vector, Yields}
use libevsig.Shutdown.Lists.{Tracks}
use libevsig.Shutdown.Ops.{Signal, Callback, no_entries}
use libevsig.Shutdown.Sending.{
  Surroundings, notify, free_lists, send_block, finish, shutdown_thread_global,
  shutdown_thread_if_started,
}
use libevsig.Shutdown.Aftermath.{Stays, notify-Stays, poll-Stays, elapsed, lock_free}

-- The process is to be ended.
abbrev pub IsAsked : Signal → Type 0
IsAsked s = s.shutdown_thread_exit ≡ true

-- What a send leaves to the shutdown thread.
abbrev Sent : Signal → Type 0
Sent s = (s.master_mutex ≡ 0) × IsAsked s

free-Tracks :
    {A : Type 0} (v : Vector A) (xs : List A) → Tracks v xs → (b : Block A) × (free v.block ≡ ok b)
unfolding free
free-Tracks v xs (inl h) = (freed, rw h.0.is_block refl)
free-Tracks v xs (inr e) = (null, rw e.0 refl)

free_lists-Sent :
    (s : Signal) (cs : List Callback) (ts : List ℕ)
    → Tracks s.callbacks cs
    → Tracks s.threadlist ts
    → Sent s
    → Yields (free_lists s) Sent
unfolding free_lists
free_lists-Sent s cs ts called listed sent =
    let (b, first) = free-Tracks s.callbacks cs called in
    let (d, second) = free-Tracks s.threadlist ts listed in
    (
      record s { callbacks = record { block = b; alloc = 0; fill = 0 }; threadlist = no_entries },
      rw (first, second) refl,
      sent,
    )

finish-exits : (s : Signal) → Sent s → finish s ≡ exit 1
unfolding finish
finish-exits s (unlocked, asked) = rw (lock_free s unlocked, asked)

module _ (around : Surroundings)
    (told : (cb ud : ℕ) (s : Signal) (ts : List ℕ)
      → Tracks s.threadlist ts
      → Yields (around.run_callback cb ud s) (Stays IsAsked s))
    (slept : (k : ℕ) (s : Signal) (ts : List ℕ)
      → Tracks s.threadlist ts
      → Yields (around.during_sleep k s) (Stays IsAsked s)) where
  notified :
      (fuel : ℕ) (s : Signal) (ts : List ℕ) (cs : List Callback)
      → Tracks s.threadlist ts
      → Tracks s.callbacks cs
      → length cs < fuel
      → Yields (notify around fuel 0 s) (Stays IsAsked s)
  unfolding notify
  notified fuel s ts cs listed (inl h) enough =
      notify-Stays around IsAsked told slept fuel 0 s ts cs listed h.0 (omega arith) (omega arith)
  notified zero s ts cs listed (inr e) enough = absurd (omega arith)
  notified (suc fuel) s ts cs listed (inr e) enough = (
    s,
    rw (ap Vector.fill e.0) refl,
    record { callbacks = refl; mutex = refl; threads = ts; listed = listed; kept = λ k. k },
  )

  let_through :
      (fuel : ℕ) (s : Signal)
      → s.shutdown_thread_started ≡ true
      → s.shutdown_mutex ≡ 0
      → shutdown_thread_if_started around fuel s
        ≡ (send_block around fuel s 5000 >>= λ (late, s'). finish s')
  unfolding shutdown_thread_if_started shutdown_thread_global
  let_through fuel s started let_go = rw (started, let_go) refl

  -- Once a signal that asks for the end of the process lets the shutdown thread go, that thread, if
  -- it has been started, ends the process with status 1.
  pub shutdown_thread-exits :
      (fuel n : ℕ) (s : Signal) (ts : List ℕ) (cs : List Callback)
      → s.shutdown_thread_started ≡ true
      → s.shutdown_thread_exit ≡ true
      → s.shutdown_mutex ≡ 0
      → s.master_mutex ≡ 0
      → Tracks s.threadlist ts
      → Tracks s.callbacks cs
      → 5000 ≤ elapsed around (around.time_ms 0) n
      → length cs < fuel
      → n < fuel
      → shutdown_thread_if_started around fuel s ≡ exit 1
  unfolding send_block
  shutdown_thread-exits fuel n s ts cs started asked let_go unlocked listed h late enough_cb
        enough =
      let_through fuel s started let_go ∙ elim (Bool-cases s.shutdown) [
        | inl already ↦ rw already (finish-exits (record s { shutdown = true }) (unlocked, asked))
        | inr fresh ↦
            let (t, called, one) =
              notified fuel (record s { shutdown = true; master_mutex = 1 }) ts cs listed h
                enough_cb in
            let (r, polled, two) =
              poll-Stays around IsAsked told slept fuel (around.time_ms 0) 5000 n 0
                (record t { master_mutex = 0 }) one.threads one.listed refl late (omega arith)
                (omega arith) in
            let left : Tracks r.1.callbacks cs =
              subst (λ v. Tracks v cs) (sym (two.callbacks ∙ one.callbacks)) h in
            let (f, freed_lists, sent) =
              free_lists-Sent r.1 cs two.threads left two.listed
                (two.mutex, two.kept (one.kept asked)) in
            rw (fresh, lock_free s unlocked, called, polled, freed_lists) (finish-exits f sent)
      ]
