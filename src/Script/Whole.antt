-- ===== src/Script/Whole.antt =====
-- A thread from its set-up to its clean-up.
use libevsig.Base.{
  ℕ, suc, ◌+◌, ◌-◌, ◌^◌, ◌<◌, ◌≡◌, refl, ◌∙◌, ap, sym, subst, Bool, true, false, none, List, [],
  ◌∷◌, Result, ok, exit, fault, hang, ◌>>=◌, arith, ltb, le→ltb, ==_refl, if◌then◌else◌, any, inl,
  inr, Bool-cases, length,
}
use libevsig.Memory.{Cells, free, freed, cells}
use libevsig.Shutdown.{Signal, confirm_shutdown}
use libevsig.Shutdown.Threads.{
  WaitsFor, with_thread, without_thread, is_thread, confirm_shutdown-WaitsFor,
  register_thread-WaitsFor,
}
use libevsig.Unwind.{Model, Models, drain, release, unwind_cleanup}
use libevsig.Send.{sig_init, sig_cleanup, register_global}
use libevsig.Send.Setup.{catchall_entry, sig_init-Models}
use libevsig.Thread.{UnwindEntry, Thread, Program, Flow, returned, landed, thread_exited}
use libevsig.Script.Syntax.{Code, size}
use libevsig.Script.Run.{next, exec}
use libevsig.Script.Frames.{Sound}
use libevsig.Script.Fits.{Fits}
use libevsig.Script.Sound.{exec-Sound}

without-with : (t : ℕ) (ts : List ℕ) → without_thread t (with_thread t ts) ≡ without_thread t ts
without-with t ts = elim (Bool-cases (any (is_thread t) ts)) [
  | inl there ↦ rw there
  | inr new ↦ rw (new, ==_refl t)
]

-- `sig_init`, the code of the thread, `sig_cleanup`. There is memory, and threads can be made.
module _ {W : Type 0} (prog : Program W) (work_on : ℕ → W → W) (fuel rounds : ℕ) where
  unfoldable pub run_thread : Bool → Code → Thread W → Result (Flow W)
  unfolding sig_init exec sig_cleanup
  run_thread threadlocal c t = do
    u ← sig_init true true threadlocal t
    exec prog work_on fuel rounds [] c u >>= next (sig_cleanup prog fuel)

  -- A thread that ended its run has freed its stacks, and these threads are waited for.
  abbrev pub Clean : List ℕ → Result (Flow W) → Type 0
  Clean left (ok (returned u)) =
      (u.handlers.block ≡ freed)
      × (u.restarts.block ≡ freed)
      × (u.unwind_stack.block ≡ freed)
      × (u.unwind_init_ref ≡ 0)
      × WaitsFor u.global left
  Clean left (ok (landed p u)) = ⊥
  Clean left (ok (thread_exited u)) = ⊥
  Clean left (exit n) = Unit
  Clean left fault = ⊥
  Clean left hang = Unit

  drain-empty :
      (n : ℕ) (t : Thread W) → t.unwind_stack.fill ≡ 0 → drain prog (suc n) t ≡ ok (returned t)
  unfolding drain
  drain-empty n t e = rw (le→ltb 0 t.unwind_stack.fill (omega (arith, e)))

  release-ends :
      (t : Thread W) (c : Cells UnwindEntry) (s : Signal)
      → t.unwind_stack.block ≡ cells c
      → confirm_shutdown t.global t.tid ≡ ok s
      → release prog (returned t)
        ≡ ok (
            returned
              (record t { unwind_stack = record (t.unwind_stack) { block = freed }; global = s }))
  unfolding release free
  release-ends t c s block confirmed = rw (block, confirmed)

  cleanup-ends :
      (n : ℕ) (t : Thread W) (c : Cells UnwindEntry) (s : Signal)
      → t.unwind_init_ref ≡ 1
      → t.unwind_stack.fill ≡ 0
      → t.unwind_stack.block ≡ cells c
      → confirm_shutdown t.global t.tid ≡ ok s
      → unwind_cleanup prog (suc n) t
        ≡ ok (
            returned (record t {
              unwind_init_ref = 0;
              unwind_stack = record (t.unwind_stack) { block = freed };
              global = s;
            }))
  unfolding unwind_cleanup
  cleanup-ends n t c s last empty block confirmed = rw (
    dropped,
    drain-empty n (record t { unwind_init_ref = 0 }) empty,
    release-ends (record t { unwind_init_ref = 0 }) c s block confirmed,
  )
    where
      dropped : (if ltb 0 t.unwind_init_ref then t.unwind_init_ref - 1 else t.unwind_init_ref) ≡ 0
      dropped = rw last

  pub sig_cleanup-returns :
      (n : ℕ) (t : Thread W) (m : Model W) (ts : List ℕ)
      → Models t m
      → m.actions ≡ []
      → m.unwind_init_ref ≡ 1
      → WaitsFor t.global ts
      → (v : Thread W) × (sig_cleanup prog (suc n) t ≡ ok (returned v))
  unfolding sig_cleanup free
  sig_cleanup-returns n t m ts s empty last waits =
      let (g, confirmed, waits') = confirm_shutdown-WaitsFor t.global t.tid ts waits in
      let u : Thread W = record t {
        handlers = record (t.handlers) { block = freed };
        restarts = record (t.restarts) { block = freed };
      } in
      let ends =
        cleanup-ends n u s.actions.contents g (s.same_ref ∙ last)
          (s.actions.filled ∙ ap length empty) s.actions.is_block confirmed in
      (
        record u {
          unwind_init_ref = 0;
          unwind_stack = record (u.unwind_stack) { block = freed };
          global = g;
        },
        rw (s.handlers.is_block, s.restarts.is_block) ends,
      )

  -- The clean-up of a thread whose scopes have all ended.
  pub sig_cleanup-Clean :
      (n : ℕ) (t : Thread W) (m : Model W) (ts : List ℕ)
      → Models t m
      → m.actions ≡ []
      → m.unwind_init_ref ≡ 1
      → WaitsFor t.global ts
      → Clean (without_thread t.tid ts) (sig_cleanup prog (suc n) t)
  unfolding sig_cleanup free
  sig_cleanup-Clean n t m ts s empty last waits =
      let (g, confirmed, waits') = confirm_shutdown-WaitsFor t.global t.tid ts waits in
      let ends =
        cleanup-ends n
          (record t {
            handlers = record (t.handlers) { block = freed };
            restarts = record (t.restarts) { block = freed };
          })
          s.actions.contents g (s.same_ref ∙ last) (s.actions.filled ∙ ap length empty)
          s.actions.is_block confirmed in
      rw (s.handlers.is_block, s.restarts.is_block) (rw ends (refl, refl, refl, refl, waits'))

  ended-Clean :
      (n : ℕ) (m : Model W) (tid : ℕ) (ts : List ℕ) (r : Result (Flow W))
      → m.actions ≡ []
      → m.unwind_init_ref ≡ 1
      → m.tid ≡ tid
      → WaitsFor m.global ts
      → Sound prog [] m r
      → Clean (without_thread tid ts) (r >>= next (sig_cleanup prog (suc n)))
  ended-Clean n m tid ts (ok (returned t)) empty last same waits s =
      subst (λ i. Clean (without_thread i ts) (sig_cleanup prog (suc n) t)) (s.1.same_tid ∙ same)
        (sig_cleanup-Clean n t _ ts s.1 empty last
          (subst (λ g. WaitsFor g ts) (sym s.1.same_global) waits))
  ended-Clean n m tid ts (ok (landed p t)) empty last same waits (base, w, ((i, at), models)) = cc
  ended-Clean n m tid ts (ok (thread_exited t)) empty last same waits s = absurd s
  ended-Clean n m tid ts (exit k) empty last same waits s = tt
  ended-Clean n m tid ts fault empty last same waits s = absurd s
  ended-Clean n m tid ts hang empty last same waits s = tt

module _ {W : Type 0} (prog : Program W) (work_on : ℕ → W → W) (n rounds : ℕ)
    (returns : (k userdata : ℕ) (w : W) → (prog.on_unwind k userdata w).1 ≡ none) where
  -- From the registration on.
  registered-Clean :
      (threadlocal : Bool) (c : Code) (t g : Thread W) (ts : List ℕ)
      → register_global true true threadlocal t ≡ ok g
      → g.unwind_init_ref ≡ 0
      → WaitsFor g.global ts
      → Fits prog 0 (catchall_entry ∷ []) c
      → size c < suc n
      → size c + 1 < 2 ^ 64
      → Clean prog work_on
          (suc n)
          rounds
          (without_thread g.tid ts)
          (run_thread prog work_on (suc n) rounds threadlocal c t)
  unfolding run_thread
  registered-Clean threadlocal c t g ts registered fresh waits fits enough ids =
      let (u, made, s) = sig_init-Models true threadlocal t g registered fresh in
      let m : Model W = record {
        handlers = catchall_entry ∷ [];
        restarts = [];
        actions = [];
        unwind_init_ref = 1;
        tid = g.tid;
        global = g.global;
        world = g.world;
      } in
      rw made (
        ended-Clean prog work_on (suc n) rounds n m g.tid ts _ refl refl refl waits (
          exec-Sound prog work_on (suc n) rounds returns c [] m g.world u fits
            (record {
              frames = tt;
              live = tt;
              enough = omega (arith, enough);
              ids = omega (arith, ids);
            })
            s))

  -- A thread that is not set up runs `sig_init`, any code with the macros, and `sig_cleanup`: with
  -- unwind actions that return, signals that are answered where they are sent, handlers that are there
  -- where they are asserted, and ids and fuel for all entries, it never touches memory that is null, freed or out of range, never jumps to a point
  -- out of scope, and never reaches the catch-all handler. If it ends, all scopes have been closed,
  -- its three stacks are freed, and the global shutdown signal waits for the same threads as before,
  -- less this one.
  pub run_thread-Clean :
      (threadlocal : Bool) (c : Code) (t : Thread W) (ts : List ℕ)
      → t.unwind_init_ref ≡ 0
      → WaitsFor t.global ts
      → Fits prog 0 (catchall_entry ∷ []) c
      → size c < suc n
      → size c + 1 < 2 ^ 64
      → Clean prog work_on
          (suc n)
          rounds
          (without_thread t.tid ts)
          (run_thread prog work_on (suc n) rounds threadlocal c t)
  unfolding register_global
  run_thread-Clean true c t ts fresh waits fits enough ids =
      registered-Clean true c t t ts refl fresh waits fits enough ids
  run_thread-Clean false c t ts fresh waits fits enough ids =
      let (g, registered, (waits', started)) = register_thread-WaitsFor t.global t.tid ts waits in
      let done =
        registered-Clean false c t (record t { global = g }) (with_thread t.tid ts)
          (rw registered refl) fresh waits' fits enough ids in
      subst
        (λ l.
          Clean prog work_on (suc n) rounds l (run_thread prog work_on (suc n) rounds false c t))
        (without-with t.tid ts) done
