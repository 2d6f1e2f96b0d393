-- ===== src/Shutdown/Aftermath.antt =====
-- What a blocking send comes to: it ends, and it leaves the callbacks' pointer dangling.
use libevsig.Base.{
  ℕ, zero, suc, ◌+◌, ◌-◌, ◌%◌, ◌^◌, ◌<◌, ◌≤◌, ◌≡◌, refl, ◌∙◌, inl, inr, Bool, true, false, List, [],
  ◌∷◌, ok, fault, hang, arith, ltb, leb, lt→ltb, ltb→lt, ltb→le, ◌==◌, Bool-cases, length,
}
use libevsig.Memory.{Cells, cells, load, Stored, load-Stored}
use libevsig.Vector.{Vector, Holds, Yields}
use libevsig.Mutex.{evsig_lock}
use libevsig.Shutdown.Lists.{Tracks}
use libevsig.Shutdown.Ops.{Signal, Callback, no_entries, register_cb, unregister_cb}
use libevsig.Shutdown.Sending.{Surroundings, notify, poll, free_lists, send_block}
use libevsig.Shutdown.Callbacks.{dangling, drop_from-dangling, insert_into-dangling}

free_lists-dangling :
    (s : Signal) (ts : List ℕ)
    → Tracks s.threadlist ts
    → {cs : List Callback} → Holds s.callbacks cs
    → free_lists s ≡ ok (record s { callbacks = dangling; threadlist = no_entries })
unfolding free_lists
free_lists-dangling s ts (inl h) held = rw (held.is_block, h.0.is_block)
free_lists-dangling s ts (inr e) held = rw (held.is_block, e.0)

-- What a callback or a sleep may do to a signal here: threads may come and go, while the callbacks
-- and the mutex are as before, and `Kept` holds if it did.
pub record Stays (Kept : Signal → Type 0) (s s' : Signal) : Type 0 where
  pub callbacks : s'.callbacks ≡ s.callbacks
  pub mutex : s'.master_mutex ≡ s.master_mutex
  pub threads : List ℕ
  pub listed : Tracks s'.threadlist threads
  pub kept : Kept s → Kept s'

pub lock_free : (s : Signal) → s.master_mutex ≡ 0 → evsig_lock s.master_mutex ≡ ok 1
unfolding evsig_lock
lock_free s e = rw e

load-lt :
    (c : Cells Callback) (cs : List Callback) (i : ℕ)
    → Stored c cs
    → i < length cs
    → (a : Callback) × (load (cells c) i ≡ ok a)
load-lt c [] i s lt = absurd (omega arith)
load-lt c (x ∷ cs) i s lt = elim (Bool-cases (i == length cs)) [
  | inl top ↦
      let here : i ≡ length cs = ground arith in (x, rw here (load-Stored c (length cs) s.0))
  | inr under ↦ load-lt c cs i s.1 (ground arith)
]

pub load-at :
    (v : Vector Callback) (cs : List Callback) (i : ℕ)
    → Holds v cs
    → i < v.fill
    → (a : Callback) × (load v.block i ≡ ok a)
load-at v cs i h lt =
    let (a, loaded) = load-lt h.contents cs i h.stored (omega (arith, h.filled)) in
    (a, rw h.is_block loaded)

abbrev abandoned : Signal → Signal
abandoned s = record s { callbacks = dangling; threadlist = no_entries }

unregister-dangling :
    (s : Signal) → s.master_mutex ≡ 0 → (id : ℕ) → unregister_cb (abandoned s) id ≡ fault
unfolding unregister_cb
unregister-dangling s unlocked id = rw (unlocked, drop_from-dangling (λ (c : Callback). c.id == id))

register-dangling :
    (s : Signal)
    → s.master_mutex ≡ 0
    → (room : Bool) (cb ud : ℕ) → register_cb room (abandoned s) cb ud ≡ fault
unfolding register_cb
register-dangling s unlocked room cb ud = rw (unlocked, insert_into-dangling room)

-- `evsig_time_ms()-start_ms` in round `k`.
abbrev pub elapsed : Surroundings → ℕ → ℕ → ℕ
elapsed around start k = (around.time_ms (suc k) + 2 ^ 64 - start) % 2 ^ 64

leb-false : (a b : ℕ) → a ≤ b → leb a b ≡ false → ⊥
leb-false a b le no_le = ground arith

module _ (around : Surroundings) (Kept : Signal → Type 0)
    (told : (cb ud : ℕ) (s : Signal) (ts : List ℕ)
      → Tracks s.threadlist ts
      → Yields (around.run_callback cb ud s) (Stays Kept s))
    (slept : (k : ℕ) (s : Signal) (ts : List ℕ)
      → Tracks s.threadlist ts
      → Yields (around.during_sleep k s) (Stays Kept s)) where
  pub notify-Stays :
      (fuel i : ℕ) (s : Signal) (ts : List ℕ) (cs : List Callback)
      → Tracks s.threadlist ts
      → Holds s.callbacks cs
      → i ≤ length cs
      → length cs < i + fuel
      → Yields (notify around fuel i s) (Stays Kept s)
  unfolding notify
  notify-Stays zero i s ts cs listed h inside enough = absurd (omega arith)
  notify-Stays (suc fuel) i s ts cs listed h inside enough =
      elim (Bool-cases (ltb i s.callbacks.fill)) [
        | inl more ↦
            let (c, loaded) = load-at s.callbacks cs i h (ltb→lt i s.callbacks.fill more) in
            let (t, ran, one) = told c.cb c.ud s ts listed in
            let (u, rest, others) =
              notify-Stays fuel (suc i) t one.threads cs one.listed (rw one.callbacks h)
                (omega (arith, h.filled, ltb→lt i s.callbacks.fill more)) (omega arith) in
            (
              u,
              rw (more, loaded, ran) rest,
              record {
                callbacks = others.callbacks ∙ one.callbacks;
                mutex = others.mutex ∙ one.mutex;
                threads = others.threads;
                listed = others.listed;
                kept = λ k. others.kept (one.kept k);
              },
            )
        | inr done ↦ (
          s,
          rw done,
          record { callbacks = refl; mutex = refl; threads = ts; listed = listed; kept = λ k. k },
        )
      ]

  -- If the time is up by round `n`, the polling loop ends by then.
  pub poll-Stays :
      (fuel start timeout_ms n k : ℕ) (s : Signal) (ts : List ℕ)
      → Tracks s.threadlist ts
      → s.master_mutex ≡ 0
      → timeout_ms ≤ elapsed around start n
      → k ≤ n
      → n < k + fuel
      → Yields (poll around fuel start timeout_ms k s) (λ r. Stays Kept s r.1)
  unfolding poll
  poll-Stays zero start timeout_ms n k s ts listed unlocked late before enough =
      absurd (omega arith)
  poll-Stays (suc fuel) start timeout_ms n k s ts listed unlocked late before enough =
      elim (Bool-cases (s.threadlist.fill == 0)) [
        | inl empty ↦ (
          (false, s),
          rw (lock_free s unlocked, empty),
          record { callbacks = refl; mutex = refl; threads = ts; listed = listed; kept = λ k. k },
        )
        | inr busy ↦
            let (t, ran, one) = slept k s ts listed in
            elim (Bool-cases (leb timeout_ms (elapsed around start k))) [
              | inl up ↦ ((true, t), rw (lock_free s unlocked, busy, ran, up), one)
              | inr going ↦
                  let (r, rest, others) =
                    poll-Stays fuel start timeout_ms n (suc k) t one.threads one.listed
                      (one.mutex ∙ unlocked) late (not_yet k n before late going) (omega arith) in
                  (
                    r,
                    rw (lock_free s unlocked, busy, ran, going) rest,
                    record {
                      callbacks = others.callbacks ∙ one.callbacks;
                      mutex = others.mutex ∙ one.mutex;
                      threads = others.threads;
                      listed = others.listed;
                      kept = λ k. others.kept (one.kept k);
                    },
                  )
            ]
      ]
    where
      not_yet :
          (i j : ℕ)
          → i ≤ j
          → timeout_ms ≤ elapsed around start j
          → leb timeout_ms (elapsed around start i) ≡ false
          → suc i ≤ j
      not_yet i j le up going = elim (Bool-cases (ltb i j)) [
        | inl lt ↦ ltb→lt i j lt
        | inr ge ↦
            let same : j ≡ i = omega (arith, ltb→le i j ge) in
            absurd (leb-false timeout_ms (elapsed around start i) (rw same at up) going)
      ]

  -- The mutex is free, callbacks are registered, and the signal has not been sent. What the callbacks
  -- and the other threads do until the time is up, by round `n` below the fuel, returns, registers and
  -- unregisters no callback, leaves the mutex as it was and the list of threads in order. Then the send
  -- returns, with the list of threads empty and the pointer to the callbacks dangling: to unregister
  -- any callback, or to register one, is undefined behaviour.
  pub send_block-dangling :
      (fuel n timeout_ms : ℕ) (s : Signal) (ts : List ℕ) (cs : List Callback)
      → s.shutdown ≡ false
      → s.master_mutex ≡ 0
      → Tracks s.threadlist ts
      → Holds s.callbacks cs
      → timeout_ms ≤ elapsed around (around.time_ms 0) n
      → length cs < fuel
      → n < fuel
      → Yields (send_block around fuel s timeout_ms) (λ r.
        (r.1.threadlist ≡ no_entries)
        × ((id : ℕ) → unregister_cb r.1 id ≡ fault)
        × ((room : Bool) (cb ud : ℕ) → register_cb room r.1 cb ud ≡ fault))
  unfolding send_block
  send_block-dangling fuel n timeout_ms s ts cs fresh unlocked listed h late enough_cb enough =
      let (t, called, one) =
        notify-Stays fuel 0 (record s { shutdown = true; master_mutex = 1 }) ts cs listed h
          (omega arith) (omega arith) in
      let (r, polled, two) =
        poll-Stays fuel (around.time_ms 0) timeout_ms n 0 (record t { master_mutex = 0 })
          one.threads one.listed refl late (omega arith) (omega arith) in
      let held : Holds r.1.callbacks cs = rw (two.callbacks ∙ one.callbacks) h in
      (
        (r.0, record (r.1) { callbacks = dangling; threadlist = no_entries }),
        rw (fresh, unlocked, called, polled, free_lists-dangling r.1 two.threads two.listed held),
        (refl, unregister-dangling r.1 two.mutex, register-dangling r.1 two.mutex),
      )

-- If the first callback of a signal that has not been sent unregisters itself, or any other, the
-- send never returns: the callback waits for the mutex that the send holds while it calls it.
pub send_block-deadlock :
    (around : Surroundings) (fuel timeout_ms id : ℕ) (s : Signal) (c : Callback)
    → s.shutdown ≡ false
    → s.master_mutex ≡ 0
    → 0 < s.callbacks.fill
    → load s.callbacks.block 0 ≡ ok c
    → ((s' : Signal) → around.run_callback c.cb c.ud s' ≡ unregister_cb s' id)
    → send_block around (suc fuel) s timeout_ms ≡ hang
unfolding send_block notify unregister_cb
send_block-deadlock around fuel timeout_ms id s c fresh unlocked some_left first unregisters =
    rw (fresh, unlocked, lt→ltb 0 s.callbacks.fill some_left, first, unregisters)
