-- ===== src/Shutdown/Parallel/Statements.antt =====
-- What one statement leaves as it is, and what an answer of no does to it.
use libevsig.Base.{
  not, ◌≡◌, subst, ◌==◌, refl, ◌⊎◌, inl, inr, Bool, true, false, Option, none, some, ok, exit,
  succeeded, sym, arith,
}
use libevsig.Memory.{realloc}
use libevsig.Vector.{Vector, ok-injective}
use libevsig.Shutdown.Ops.{start_thread, Signal, Callback}
use libevsig.Shutdown.Parallel.Moves.{
  Growth, testing_room, raising, reallocating, grow_step, shift_step,
}
use libevsig.Shutdown.Parallel.Sections.{
  returns, Section, searching, growing_threads, inserting_thread, starting, shifting_threads,
  growing_callbacks, inserting_callback, shifting_callbacks, asking, letting_go, notifying,
  checking, unlocking, Next, goes_on, leaves, then_at, perform,
}

-- A statement leaves the mutex as it is, unless it is the unlocking.
abbrev pub Proceeds : Signal → Next × Signal → Type 0
Proceeds s (goes_on rest, s') = s'.master_mutex ≡ s.master_mutex
Proceeds s (leaves a, s') = Unit

then_at-Proceeds :
    {P : Type 0} (at : P → Section) (behind : Section) (h : Option P) (s u : Signal)
    (r : Next × Signal)
    → u.master_mutex ≡ s.master_mutex
    → ok (then_at at behind h, u) ≡ ok r
    → Proceeds s r
then_at-Proceeds at behind none s u r same made = subst (Proceeds s) (ok-injective made) same
then_at-Proceeds at behind (some p) s u r same made = subst (Proceeds s) (ok-injective made) same

pub perform-Proceeds :
    (section : Section) (s : Signal) (r : Next × Signal)
    → perform true section s ≡ ok r
    → Proceeds s r
unfolding perform
perform-Proceeds (searching t i) s r done = ground arith
perform-Proceeds (growing_threads t g) s r done =
    let ((h, list), (moved, rest)) = succeeded _ (grow_step true g s.threadlist) (sym done) in
    then_at-Proceeds (growing_threads t) (inserting_thread t) h s (record s { threadlist = list }) r
      refl rest
perform-Proceeds (inserting_thread t) s r done = ground arith
perform-Proceeds starting s r done = ground arith
perform-Proceeds (shifting_threads t d) s r done =
    let ((h, list), (moved, rest)) =
      succeeded _ (shift_step (λ u. u == t) d s.threadlist) (sym done) in
    then_at-Proceeds (shifting_threads t) (unlocking returns) h s (record s { threadlist = list }) r
      refl rest
perform-Proceeds (growing_callbacks cb ud g) s r done =
    let ((h, list), (moved, rest)) = succeeded _ (grow_step true g s.callbacks) (sym done) in
    then_at-Proceeds (growing_callbacks cb ud) (inserting_callback cb ud) h s
      (record s { callbacks = list }) r refl rest
perform-Proceeds (inserting_callback cb ud) s r done = ground arith
perform-Proceeds (shifting_callbacks id d) s r done =
    let ((h, list), (moved, rest)) =
      succeeded _ (shift_step (λ (c : Callback). c.id == id) d s.callbacks) (sym done) in
    then_at-Proceeds (shifting_callbacks id) (unlocking returns) h s (record s { callbacks = list })
      r refl rest
perform-Proceeds (asking exit_process) s r done = ground arith
perform-Proceeds letting_go s r done = ground arith
perform-Proceeds (notifying i) s r done = ground arith
perform-Proceeds checking s r done = ground arith
perform-Proceeds (unlocking a) s r done = ground arith

grow_step-granted :
    {A : Type 0} (g : Growth) (v : Vector A) (r : Option Growth × Vector A)
    → grow_step true g v ≡ ok r
    → (grow_step false g v ≡ ok r) ⊎ (grow_step false g v ≡ exit 1)
unfolding grow_step realloc
grow_step-granted testing_room v r done = inl done
grow_step-granted raising v r done = inl done
grow_step-granted reallocating v r done = ground arith

start_thread-granted :
    (s s' : Signal)
    → start_thread true s ≡ ok s'
    → (start_thread false s ≡ ok s') ⊎ (start_thread false s ≡ exit 1)
unfolding start_thread
start_thread-granted s s' started = ground arith

-- Where an answer is no, a statement is done as well, or the process ends.
pub perform-granted :
    (granted : Bool) (section : Section) (s : Signal) (r : Next × Signal)
    → perform true section s ≡ ok r
    → (perform granted section s ≡ ok r)
      ⊎ ((perform granted section s ≡ exit 1) × (not granted ≡ true))
unfolding perform
perform-granted true section s r done = inl done
perform-granted false (growing_threads t g) s r done =
    let (u, (grown, rest)) = succeeded _ (grow_step true g s.threadlist) (sym done) in
    elim (grow_step-granted g s.threadlist u grown) [
      | inl same ↦ inl (rw same rest)
      | inr ended ↦ inr (rw ended refl, refl)
    ]
perform-granted false (growing_callbacks cb ud g) s r done =
    let (u, (grown, rest)) = succeeded _ (grow_step true g s.callbacks) (sym done) in
    elim (grow_step-granted g s.callbacks u grown) [
      | inl same ↦ inl (rw same rest)
      | inr ended ↦ inr (rw ended refl, refl)
    ]
perform-granted false starting s r done =
    let (s', (started, rest)) = succeeded _ (start_thread true s) (sym done) in
    elim (start_thread-granted s s' started) [
      | inl same ↦ inl (rw same rest)
      | inr ended ↦ inr (rw ended refl, refl)
    ]
perform-granted false (searching t i) s r done = inl done
perform-granted false (inserting_thread t) s r done = inl done
perform-granted false (shifting_threads t d) s r done = inl done
perform-granted false (inserting_callback cb ud) s r done = inl done
perform-granted false (shifting_callbacks id d) s r done = inl done
perform-granted false (asking exit_process) s r done = inl done
perform-granted false letting_go s r done = inl done
perform-granted false (notifying i) s r done = inl done
perform-granted false checking s r done = inl done
perform-granted false (unlocking a) s r done = inl done
