-- ===== src/Shutdown/Parallel/Finishing.antt =====
-- Statement by statement a thread that holds the mutex does what its operation does at once.
use libevsig.Base.{
  ℕ, zero, suc, ◌+◌, ◌%◌, ◌^◌, ◌≡◌, refl, sym, ◌∙◌, ap, subst, inl, inr, Bool, true, false,
  Bool-cases, ◌==◌, if◌then◌else◌, ok, succeeded, lt→ltb, le→ltb, arith,
}
use libevsig.Memory.{load}
use libevsig.Vector.{Vector, any_from, ok-injective}
use libevsig.Mutex.{evsig_unlock}
use libevsig.Shutdown.Ops.{
  start_thread, Signal, Callback, grow_list, insert_into, drop_from, insert_thread, register_thread,
  confirm_shutdown, register_cb, unregister_cb, send_async,
}
use libevsig.Shutdown.Aftermath.{lock_free}
use libevsig.Shutdown.Parallel.Moves.{Growth, testing_room, grow_step, Shift, shift_step}
use libevsig.Shutdown.Parallel.Runs.{Runs, last, more, grow_list-Runs, drop_from-Runs}
use libevsig.Shutdown.Parallel.Sections.{
  returns, Section, searching, growing_threads, inserting_thread, starting, shifting_threads,
  growing_callbacks, inserting_callback, shifting_callbacks, unlocking, goes_on, perform, complete,
}
use libevsig.Shutdown.Parallel.Steps.{
  Call, registers, confirms, adds, drops, asks, begin, held, operate,
}

-- The statements from this one on lead to the last signal, with the mutex free.
abbrev pub Finishes : Section → Signal → Signal → Type 0
Finishes section s after = (n : ℕ) × (complete n section s ≡ ok after)

first-Finishes :
    (section rest : Section) (s u after : Signal)
    → perform true section s ≡ ok (goes_on rest, u)
    → Finishes rest u after
    → Finishes section s after
unfolding complete
first-Finishes section rest s u after done (n, left) = (suc n, rw done left)

unlocking-Finishes : (s : Signal) → Finishes (unlocking returns) s (record s { master_mutex = 0 })
unfolding complete perform
unlocking-Finishes s = (1, refl)

growing_threads-Finishes :
    (t : ℕ) {g : Growth} {v w : Vector ℕ} (s after : Signal)
    → Runs (grow_step true) g v w
    → Finishes (inserting_thread t) (record s { threadlist = w }) after
    → Finishes (growing_threads t g) (record s { threadlist = v }) after
unfolding perform
growing_threads-Finishes t s after (last done) rest =
    first-Finishes _ _ _ _ after (rw done refl) rest
growing_threads-Finishes t s after (more done left) rest =
    first-Finishes _ _ _ _ after (rw done refl) (growing_threads-Finishes t s after left rest)

growing_callbacks-Finishes :
    (cb ud : ℕ) {g : Growth} {v w : Vector Callback} (s after : Signal)
    → Runs (grow_step true) g v w
    → Finishes (inserting_callback cb ud) (record s { callbacks = w }) after
    → Finishes (growing_callbacks cb ud g) (record s { callbacks = v }) after
unfolding perform
growing_callbacks-Finishes cb ud s after (last done) rest =
    first-Finishes _ _ _ _ after (rw done refl) rest
growing_callbacks-Finishes cb ud s after (more done left) rest =
    first-Finishes _ _ _ _ after (rw done refl) (growing_callbacks-Finishes cb ud s after left rest)

shifting_threads-Finishes :
    (t : ℕ) {d : Shift} {v w : Vector ℕ} (s after : Signal)
    → Runs (shift_step (λ u. u == t)) d v w
    → Finishes (unlocking returns) (record s { threadlist = w }) after
    → Finishes (shifting_threads t d) (record s { threadlist = v }) after
unfolding perform
shifting_threads-Finishes t s after (last done) rest =
    first-Finishes _ _ _ _ after (rw done refl) rest
shifting_threads-Finishes t s after (more done left) rest =
    first-Finishes _ _ _ _ after (rw done refl) (shifting_threads-Finishes t s after left rest)

shifting_callbacks-Finishes :
    (id : ℕ) {d : Shift} {v w : Vector Callback} (s after : Signal)
    → Runs (shift_step (λ (c : Callback). c.id == id)) d v w
    → Finishes (unlocking returns) (record s { callbacks = w }) after
    → Finishes (shifting_callbacks id d) (record s { callbacks = v }) after
unfolding perform
shifting_callbacks-Finishes id s after (last done) rest =
    first-Finishes _ _ _ _ after (rw done refl) rest
shifting_callbacks-Finishes id s after (more done left) rest =
    first-Finishes _ _ _ _ after (rw done refl) (shifting_callbacks-Finishes id s after left rest)

-- Behind the search for the thread.
abbrev searched : ℕ → Bool → Section
searched t found = if found then unlocking returns else growing_threads t testing_room

searching-Finishes :
    (n i t : ℕ) (s after : Signal) (found : Bool)
    → any_from (λ u. u == t) s.threadlist.block n i ≡ ok found
    → i + n ≡ s.threadlist.fill
    → Finishes (searched t found) s after
    → Finishes (searching t i) s after
unfolding any_from perform
searching-Finishes zero i t s after found done end rest =
    first-Finishes (searching t i) (searched t false) s s after
      (rw (le→ltb i s.threadlist.fill (omega (arith, end))) refl)
      (subst (λ b. Finishes (searched t b) s after) (sym (ok-injective done)) rest)
searching-Finishes (suc n) i t s after found done end rest =
    let (u, (loaded, branch)) = succeeded _ (load s.threadlist.block i) (sym done) in
    elim (Bool-cases (u == t)) [
      | inl match ↦
          first-Finishes (searching t i) (searched t true) s s after
            (rw (lt→ltb i s.threadlist.fill (omega (arith, end)), loaded, match) refl)
            (subst (λ b. Finishes (searched t b) s after) (sym (ok-injective (rw match at branch)))
              rest)
      | inr differs ↦
          first-Finishes (searching t i) (searching t (suc i)) s s after
            (rw (lt→ltb i s.threadlist.fill (omega (arith, end)), loaded, differs) refl)
            (searching-Finishes n (suc i) t s after found (rw differs at branch)
              (omega (arith, end)) rest)
    ]

started : (s s' : Signal) → start_thread true s ≡ ok s' → start_thread true (held s) ≡ ok (held s')
unfolding start_thread
started s s' done = ground arith

registered-Finishes :
    (t : ℕ) (found : Bool) (s s' : Signal)
    → (if found then ok s else insert_thread true true s t) ≡ ok s'
    → Finishes (searched t found) (held s) (record s' { master_mutex = 0 })
unfolding insert_thread insert_into perform
registered-Finishes t true s s' done =
    subst (λ u. Finishes (unlocking returns) (held s) (record u { master_mutex = 0 }))
      (ok-injective done) (unlocking-Finishes (held s))
registered-Finishes t false s s' done =
    let (list, (inserted, begun)) = succeeded _ (insert_into true s.threadlist t) (sym done) in
    let (w, (grown, appended)) = succeeded _ (grow_list true s.threadlist) (sym inserted) in
    growing_threads-Finishes t (held s) (record s' { master_mutex = 0 })
      (grow_list-Runs s.threadlist w grown)
      (first-Finishes (inserting_thread t) starting (record (held s) { threadlist = w })
        (record (held s) { threadlist = list }) (record s' { master_mutex = 0 }) (rw appended refl)
        (first-Finishes starting (unlocking returns) (record (held s) { threadlist = list })
          (held s') (record s' { master_mutex = 0 })
          (rw (started (record s { threadlist = list }) s' begun) refl)
          (unlocking-Finishes (held s'))))

-- The statements of a call, one after the other, are the operation.
pub operate-Finishes :
    (c : Call) (s after : Signal)
    → s.master_mutex ≡ 0
    → operate c s ≡ ok after
    → Finishes (begin c) (held s) after
unfolding operate register_thread confirm_shutdown register_cb unregister_cb send_async insert_into
    complete perform evsig_unlock
operate-Finishes (registers t) s after unlocked done =
    let (found, (looked, next)) =
      succeeded _ (any_from (λ u. u == t) s.threadlist.block s.threadlist.fill 0)
        (sym (rw (lock_free s unlocked) at done)) in
    let (s', (inserted, ended)) =
      succeeded _ (if found then ok s else insert_thread true true s t) (sym next) in
    searching-Finishes s.threadlist.fill 0 t (held s) after found looked (omega arith) (
      subst (Finishes (searched t found) (held s)) (ok-injective ended)
        (registered-Finishes t found s s' inserted))
operate-Finishes (confirms t) s after unlocked done =
    let (list, (dropped, ended)) =
      succeeded _ (drop_from (λ u. u == t) s.threadlist)
        (sym (rw (lock_free s unlocked) at done)) in
    shifting_threads-Finishes t (held s) after
      (drop_from-Runs (λ u. u == t) s.threadlist list dropped)
      (subst (Finishes (unlocking returns) (record (held s) { threadlist = list }))
        (ok-injective ended) (unlocking-Finishes (record (held s) { threadlist = list })))
operate-Finishes (adds cb ud) s after unlocked done =
    let (r, (registered, kept)) = succeeded _ (register_cb true s cb ud) (sym done) in
    let id = (s.callbacks_last_insert_id + 1) % 2 ^ 64 in
    let c : Callback = record { id = id; cb = cb; ud = ud } in
    let (list, (inserted, ended)) =
      succeeded _ (insert_into true s.callbacks c)
        (sym (rw (lock_free s unlocked) at registered)) in
    let (w, (grown, appended)) = succeeded _ (grow_list true s.callbacks) (sym inserted) in
    let u : Signal = record (held s) { callbacks = list; callbacks_last_insert_id = id } in
    growing_callbacks-Finishes cb ud (held s) after (grow_list-Runs s.callbacks w grown) (
      first-Finishes (inserting_callback cb ud) (unlocking returns)
        (record (held s) { callbacks = w }) u after (rw appended refl)
        (subst (Finishes (unlocking returns) u)
          (ap (λ x. x.1) (ok-injective ended) ∙ ok-injective kept) (unlocking-Finishes u)))
operate-Finishes (drops id) s after unlocked done =
    let (list, (dropped, ended)) =
      succeeded _ (drop_from (λ (c : Callback). c.id == id) s.callbacks)
        (sym (rw (lock_free s unlocked) at done)) in
    shifting_callbacks-Finishes id (held s) after
      (drop_from-Runs (λ (c : Callback). c.id == id) s.callbacks list dropped)
      (subst (Finishes (unlocking returns) (record (held s) { callbacks = list }))
        (ok-injective ended) (unlocking-Finishes (record (held s) { callbacks = list })))
operate-Finishes (asks exit_process) s after unlocked done = (3, rw (lock_free s unlocked) at done)
