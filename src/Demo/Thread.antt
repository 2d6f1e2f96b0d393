-- ===== src/Demo/Thread.antt =====
-- The thread of the demonstration ends when it is asked to.
use libevsig.Base.{
  ℕ, zero, suc, ◌+◌, ◌<◌, ◌≤◌, ◌≡◌, refl, ◌∙◌, inl, inr, Bool-cases, true, false, List, Result, ok,
  arith, ◌==◌, ==_iff,
}
use libevsig.Vector.{Yields}
use libevsig.Shutdown.{Signal, shutdown_p}
use libevsig.Shutdown.Threads.{
  WaitsFor, with_thread, without_thread, register_thread-WaitsFor, confirm_shutdown-WaitsFor,
}
use libevsig.Demo.{thread_loop, thread}

-- The lists are as they should be, whichever threads are waited for.
abbrev pub IsWaiting : Signal → Type 0
IsWaiting s = (ts : List ℕ) × WaitsFor s ts

module _ (sleep : ℕ → Signal → Result Signal) (n : ℕ)
    (slept : (k : ℕ) (s : Signal)
      → IsWaiting s
      → Yields (sleep k s) (λ s'. IsWaiting s' × (k ≡ n → s'.shutdown ≡ true))) where
  thread_loop-asked :
      (fuel k : ℕ) (s : Signal) → s.shutdown ≡ true → thread_loop (suc fuel) sleep k s ≡ ok s
  unfolding thread_loop shutdown_p
  thread_loop-asked fuel k s asked = rw asked refl

  thread_loop-step :
      (fuel k : ℕ) (s s' : Signal)
      → s.shutdown ≡ false
      → sleep k s ≡ ok s'
      → thread_loop (suc fuel) sleep k s ≡ thread_loop fuel sleep (suc k) s'
  unfolding thread_loop shutdown_p
  thread_loop-step fuel k s s' going sleeps = rw (sleeps, going) refl

  thread_loop-IsWaiting :
      (fuel k : ℕ) (s : Signal)
      → IsWaiting s
      → k ≤ n
      → n + 1 < k + fuel
      → Yields (thread_loop fuel sleep k s) (λ s'. IsWaiting s' × (s'.shutdown ≡ true))
  thread_loop-IsWaiting zero k s w before enough = absurd (omega arith)
  thread_loop-IsWaiting (suc zero) k s w before enough = absurd (omega arith)
  thread_loop-IsWaiting (suc (suc fuel)) k s w before enough = elim (Bool-cases s.shutdown) [
    | inl already ↦ (s, thread_loop-asked (suc fuel) k s already, (w, already))
    | inr going ↦
        let (s', sleeps, (w', asked)) = slept k s w in
        elim (Bool-cases (k == n)) [
          | inl last ↦
              let sent = asked ((==_iff k n).0 last) in
              (
                s',
                thread_loop-step (suc fuel) k s s' going sleeps
                    ∙ thread_loop-asked fuel (suc k) s' sent,
                (w', sent),
              )
          | inr earlier ↦
              let (u, rest, ends) =
                thread_loop-IsWaiting (suc fuel) (suc k) s' w' (ground arith) (omega arith) in
              (u, thread_loop-step (suc fuel) k s s' going sleeps ∙ rest, ends)
        ]
  ]

  -- With sleeps in which other threads keep the list of threads right, and in the `n`-th of which the
  -- signal is sent: the thread of the demonstration ends, having been asked to, and is not waited for
  -- any more.
  pub thread-ends :
      (fuel : ℕ) (t : ℕ) (s : Signal)
      → IsWaiting s
      → n + 1 < fuel
      → Yields
          (thread fuel true sleep t s)
          (λ s'. (ts : List ℕ) × WaitsFor s' (without_thread t ts))
  unfolding thread
  thread-ends fuel t s w enough =
      let (r, registered, (waits, started)) = register_thread-WaitsFor s t w.0 w.1 in
      let (u, looped, ((ts, waits'), asked)) =
        thread_loop-IsWaiting fuel 0 r (with_thread t w.0, waits) (omega arith) (omega arith) in
      let (v, confirmed, left) = confirm_shutdown-WaitsFor u t ts waits' in
      (v, rw (registered, looped) confirmed, (ts, left))
