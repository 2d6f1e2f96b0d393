-- ===== src/Script/Finish.antt =====
-- A thread whose code settles comes to an end.
use libevsig.Base.{
  ◌⊎◌, inl, inr, ℕ, suc, ◌+◌, ◌^◌, ◌<◌, ◌≡◌, refl, sym, subst, Bool, true, false, none, List, [],
  ◌∷◌, Result, ok, exit, fault, hang, ◌>>=◌, arith, inl, inr,
}
use libevsig.Shutdown.Threads.{WaitsFor, with_thread, register_thread-WaitsFor}
use libevsig.Unwind.{Model}
use libevsig.Send.{sig_cleanup, register_global}
use libevsig.Send.Setup.{catchall_entry, sig_init-Models}
use libevsig.Thread.{Thread, Program, Flow, returned, landed, thread_exited}
use libevsig.Script.Syntax.{Code, size}
use libevsig.Script.Run.{next}
use libevsig.Script.Frames.{Sound}
use libevsig.Script.Fits.{Fits, Ready}
use libevsig.Script.Sound.{exec-Sound}
use libevsig.Script.Settled.{Settles, Ends}
use libevsig.Script.Ending.{exec-Ends}
use libevsig.Script.Whole.{run_thread, sig_cleanup-returns}

module _ {W : Type 0} where
  -- It returned, or the process ended.
  abbrev pub IsOver : Result (Flow W) → Type 0
  IsOver r = ((v : Thread W) × (r ≡ ok (returned v))) ⊎ ((k : ℕ) × (r ≡ exit k))

module _ {W : Type 0} (prog : Program W) (work_on : ℕ → W → W) (n rounds : ℕ)
    (returns : (k userdata : ℕ) (w : W) → (prog.on_unwind k userdata w).1 ≡ none) where
  ended-IsOver :
      (m : Model W) (ts : List ℕ) (r : Result (Flow W))
      → m.actions ≡ []
      → m.unwind_init_ref ≡ 1
      → WaitsFor m.global ts
      → Sound prog [] m r
      → Ends false r
      → IsOver (r >>= next (sig_cleanup prog (suc n)))
  ended-IsOver m ts (ok (returned t)) empty last waits s e = inl (
      sig_cleanup-returns prog work_on (suc n) rounds n t (record m { world = s.0 }) ts s.1 empty
        last (subst (λ g. WaitsFor g ts) (sym s.1.same_global) waits))
  ended-IsOver m ts (ok (landed p t)) empty last waits (base, w, ((i, at), models)) e = cc
  ended-IsOver m ts (ok (thread_exited t)) empty last waits s e = absurd s
  ended-IsOver m ts (exit k) empty last waits s e = inr (k, refl)
  ended-IsOver m ts fault empty last waits s e = absurd s
  ended-IsOver m ts hang empty last waits s e = absurd e

  registered-IsOver :
      (threadlocal : Bool) (c : Code) (t g : Thread W) (ts : List ℕ)
      → register_global true true threadlocal t ≡ ok g
      → g.unwind_init_ref ≡ 0
      → WaitsFor g.global ts
      → Settles false c
      → Fits prog 0 (catchall_entry ∷ []) c
      → size c < suc n
      → size c + 1 < 2 ^ 64
      → IsOver (run_thread prog work_on (suc n) (suc (suc rounds)) threadlocal c t)
  unfolding run_thread
  registered-IsOver threadlocal c t g ts registered fresh waits settles fits enough ids =
      let (u, made, s) = sig_init-Models true threadlocal t g registered fresh in
      let m : Model W = record {
        handlers = catchall_entry ∷ [];
        restarts = [];
        actions = [];
        unwind_init_ref = 1;
        tid = g.tid;
        global = g.global;
        world = g.world;
      } in
      let ready : Ready prog (suc n) [] m (size c) = record {
        frames = tt;
        live = tt;
        enough = omega (arith, enough);
        ids = omega (arith, ids);
      } in
      rw made (
        ended-IsOver m ts _ refl refl waits
          (exec-Sound prog work_on (suc n) (suc (suc rounds)) returns c [] m g.world u fits ready s)
          (exec-Ends prog work_on (suc n) rounds returns false c [] m g.world u settles fits ready
            s))

  -- A thread that is not set up runs `sig_init`, code with the macros, and `sig_cleanup`, while nobody
  -- holds the mutex of the global signal and its list of threads is in order. The unwind actions return;
  -- the code unwinds to points in scope only, each signal that it sends is answered by the handlers
  -- there, and each handler that it asserts is there; the ids and the fuel are enough for all its
  -- entries; and what follows a landing in the code neither sends nor unwinds, or ends the process. Then
  -- the thread comes to its end or ends the process. Each `setjmp` returns twice at most.
  pub run_thread-IsOver :
      (threadlocal : Bool) (c : Code) (t : Thread W) (ts : List ℕ)
      → t.unwind_init_ref ≡ 0
      → WaitsFor t.global ts
      → Settles false c
      → Fits prog 0 (catchall_entry ∷ []) c
      → size c < suc n
      → size c + 1 < 2 ^ 64
      → IsOver (run_thread prog work_on (suc n) (suc (suc rounds)) threadlocal c t)
  unfolding register_global
  run_thread-IsOver true c t ts fresh waits settles fits enough ids =
      registered-IsOver true c t t ts refl fresh waits settles fits enough ids
  run_thread-IsOver false c t ts fresh waits settles fits enough ids =
      let (g, registered, (waits', started)) = register_thread-WaitsFor t.global t.tid ts waits in
      registered-IsOver false c t (record t { global = g }) (with_thread t.tid ts)
        (rw registered refl) fresh waits' settles fits enough ids
