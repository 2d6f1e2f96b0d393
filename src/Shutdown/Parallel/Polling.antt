-- ===== src/Shutdown/Parallel/Polling.antt =====
-- The critical sections of `send_block`, when nothing interferes.
use libevsig.Base.{
  ℕ, zero, suc, ◌+◌, ◌≤◌, ◌≡◌, refl, sym, subst, inl, inr, ok, List, arith, lt→ltb, le→ltb,
}
use libevsig.Vector.{Holds}
use libevsig.Shutdown.Ops.{Signal, Callback}
use libevsig.Shutdown.Lists.{Tracks}
use libevsig.Shutdown.Aftermath.{load-at}
use libevsig.Shutdown.Parallel.Sections.{notifying, checking, complete}

abbrev freed_mutex : Signal → Signal
freed_mutex s = record s { master_mutex = 0 }

notifying-last :
    (i : ℕ) (s : Signal) → s.callbacks.fill ≤ i → complete 2 (notifying i) s ≡ ok (freed_mutex s)
unfolding complete
notifying-last i s done = rw (le→ltb i s.callbacks.fill done) refl

notifying-left :
    (k i : ℕ) (s : Signal) (cs : List Callback)
    → Holds s.callbacks cs
    → i + k ≡ s.callbacks.fill
    → complete (suc (suc k)) (notifying i) s ≡ ok (freed_mutex s)
unfolding complete
notifying-left zero i s cs h left = notifying-last i s (omega (arith, left))
notifying-left (suc k) i s cs h left =
    let (c, loaded) = load-at s.callbacks cs i h (omega (arith, left)) in
    rw (lt→ltb i s.callbacks.fill (omega (arith, left)), loaded)
      (notifying-left k (suc i) s cs h (omega (arith, left)))

-- Every callback is called, and the mutex is freed.
pub complete-notifying :
    (s : Signal) (cs : List Callback)
    → Tracks s.callbacks cs
    → (n : ℕ) × (complete n (notifying 0) s ≡ ok (record s { master_mutex = 0 }))
complete-notifying s cs (inl h) =
    (suc (suc s.callbacks.fill), notifying-left s.callbacks.fill 0 s cs h.0 (omega arith))
complete-notifying s cs (inr e) =
    (2, notifying-last 0 s (subst (λ v. v.fill ≤ 0) (sym e.0) (omega arith)))

pub complete-checking : (s : Signal) → complete 2 checking s ≡ ok (record s { master_mutex = 0 })
unfolding complete
complete-checking s = refl
