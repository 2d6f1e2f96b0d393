-- ===== src/Tests/Shutdowns.antt =====
-- The end of a process, a handle, and the thread of the demonstration, on small lists.
use libevsig.Base.{ℕ, suc, ◌≡◌, refl, ◌>>=◌, arith, true, List, [], ◌∷◌, Result, ok, exit}
use libevsig.Vector.{Yields}
use libevsig.Shutdown.{Signal, shutdown_thread_if_started, register_cb}
use libevsig.Shutdown.Process.{IsAsked}
use libevsig.Shutdown.Threads.{WaitsFor, without_thread}
use libevsig.Shutdown.Callbacks.{Notifies}
use libevsig.Shutdown.Handle.{unwind_handler_unregister_cb, register_cb-unregister_cb}
use libevsig.Unwind.Dispatch.{Text, sigint, sighandle_dispatch, sighandle_dispatch-exits}
use libevsig.Demo.{thread}
use libevsig.Demo.Thread.{IsWaiting, thread-ends}
use libevsig.Tests.Lists.{busy, waiting, notifying, older, newer, quiet, quiet-Stays}

abbrev count : Text → ℕ → ℕ
count text w = suc w

sighandle_dispatch-exits_example : Yields (sighandle_dispatch count sigint busy 0) (λ r.
    (r.0.shutdown_mutex ≡ 0)
    × (r.0.master_mutex ≡ 0)
    × (shutdown_thread_if_started quiet 20 r.0 ≡ exit 1))
sighandle_dispatch-exits_example =
    sighandle_dispatch-exits quiet (λ cb ud. quiet-Stays IsAsked) (λ k. quiet-Stays IsAsked) count
      sigint busy 0 20 5 (9 ∷ 7 ∷ []) (newer ∷ older ∷ []) refl refl waiting.listed notifying.listed
      (omega arith) (omega arith) (omega arith)

register_cb-unregister_cb_example :
    Yields
      (register_cb true busy 22 32 >>= λ r. unwind_handler_unregister_cb r.1 (record { id = r.0 }))
      (λ s'. Notifies s' (newer ∷ older ∷ []))
register_cb-unregister_cb_example =
    register_cb-unregister_cb busy 22 32 (newer ∷ older ∷ []) notifying
      (omega arith, (omega arith, tt)) (omega arith)

-- Another thread sends the signal in the first sleep.
abbrev sent : ℕ → Signal → Result Signal
sent k s = ok (record s { shutdown = true })

sent-IsWaiting :
    (k : ℕ) (s : Signal)
    → IsWaiting s
    → Yields (sent k s) (λ s'. IsWaiting s' × (k ≡ 0 → s'.shutdown ≡ true))
sent-IsWaiting k s (ts, w) = (
  record s { shutdown = true },
  refl,
  ((ts, record { unlocked = w.unlocked; listed = w.listed }), λ e. refl),
)

demo_thread_ends :
    Yields (thread 5 true sent 8 busy) (λ s'. (ts : List ℕ) × WaitsFor s' (without_thread 8 ts))
demo_thread_ends = thread-ends sent 0 sent-IsWaiting 5 8 busy ((9 ∷ 7 ∷ []), waiting) (omega arith)
