-- ===== src/Shutdown/Parallel/Survival.antt =====
-- A step keeps what holds of the signal, or it ends the process.
use libevsig.Base.{
  not, ℕ, zero, suc, ◌≡◌, ◌≢◌, refl, sym, ◌∙◌, ap, subst, ◌⊎◌, inl, inr, Bool, true, false,
  Bool-cases, if◌then◌else◌, ◌==◌, ==_iff, Result, ok, exit, fault, hang, succeeded, arith,
}
use libevsig.Memory.{free}
use libevsig.Vector.{Vector}
use libevsig.Shutdown.Ops.{Signal, no_entries}
use libevsig.Shutdown.Parallel.Sections.{
  Section, notifying, checking, Next, goes_on, leaves, perform, complete,
}
use libevsig.Shutdown.Parallel.Steps.{
  Call, Wish, calls, sends, Phase, outside, entering, entering_send, inside, testing, storing,
  sleeping, freeing, Freeing, callbacks_block, callbacks_alloc, callbacks_fill, threadlist_block,
  threadlist_null, threadlist_alloc, threadlist_fill, after_free, free_step, System, Event, act,
  advance, wished,
}
use libevsig.Shutdown.Parallel.Contract.{Board, Shows, effects}
use libevsig.Shutdown.Parallel.Flag.{flagged}
use libevsig.Shutdown.Parallel.Statements.{Proceeds, perform-Proceeds, perform-granted}
use libevsig.Shutdown.Parallel.Invariant.{
  Calm, IsFirst, IsSerial, rests, works, stays-IsSerial, taken-IsSerial, stepped-IsSerial,
  first-IsSerial, flagged-IsSerial,
}

-- A thread at one of the statements that end a send and change a list finds that list empty: a null
-- pointer, no room and no entry.
abbrev pub FreesNothing : Signal → Phase → Type 0
FreesNothing s (freeing callbacks_block) = s.callbacks ≡ no_entries
FreesNothing s (freeing callbacks_alloc) = s.callbacks ≡ no_entries
FreesNothing s (freeing callbacks_fill) = s.callbacks ≡ no_entries
FreesNothing s (freeing threadlist_block) = s.threadlist ≡ no_entries
FreesNothing s (freeing threadlist_null) = s.threadlist ≡ no_entries
FreesNothing s (freeing threadlist_alloc) = s.threadlist ≡ no_entries
FreesNothing s (freeing threadlist_fill) = s.threadlist ≡ no_entries
FreesNothing s _ = Unit

-- `refused` says whether an answer was no.
abbrev pub Survives : Bool → Board → Result System → Type 0
Survives refused b (ok m) = IsSerial (effects m.log b) m
Survives refused b (exit n) = (n ≡ 1) × (refused ≡ true)
Survives refused b fault = ⊥
Survives refused b hang = ⊥

choice-Survives :
    (refused : Bool) (b : Board) (free : Bool) (there here : System)
    → (free ≡ true → IsSerial (effects there.log b) there)
    → (free ≡ false → IsSerial (effects here.log b) here)
    → Survives refused b (ok (if free then there else here))
choice-Survives refused b true there here took waited = took refl
choice-Survives refused b false there here took waited = waited refl

entering-Survives :
    (b : Board) (e : Event) (m : System) (c : Call)
    → IsSerial (effects m.log b) m
    → Survives (not e.granted) b (act e m (entering c))
unfolding act
entering-Survives b e m c (rests r) =
    choice-Survives (not e.granted) b (m.signal.master_mutex == 0) _ m
      (λ free. taken-IsSerial (effects m.log b) m e.thread c r)
      (λ held. let unlocked = r.shown.unlocked in ground arith)
entering-Survives b e m c (works w) =
    choice-Survives (not e.granted) b (m.signal.master_mutex == 0) _ m
      (λ free. let taken = w.taken in ground arith) (λ held. works w)

-- A statement of the owner of the mutex.
working-Survives :
    (b : Board) (e : Event) (m : System) (section : Section) (r : Next × Signal) (n : ℕ)
    (after : Signal)
    → (perform e.granted section m.signal ≡ ok r)
      ⊎ ((perform e.granted section m.signal ≡ exit 1) × (not e.granted ≡ true))
    → Proceeds m.signal r
    → m.signal.master_mutex ≡ 1
    → elim r.0 [ goes_on rest ↦ complete n rest r.1 | leaves a ↦ ok r.1 ] ≡ ok after
    → Shows after (effects m.log b)
    → ((u : ℕ) → u ≢ e.thread → Calm (m.phases u))
    → Survives (not e.granted) b (act e m (inside section))
unfolding act
working-Survives b e m section (next, s) n after (inl done) p taken left shown calm =
    rw done (stepped-IsSerial b m e.thread n after next s p taken left shown calm)
working-Survives b e m section r n after (inr (ended, refused)) p taken left shown calm =
    rw ended (refl, refused)

inside-Survives :
    (b : Board) (e : Event) (m : System) (section : Section) (steps : ℕ) (after : Signal)
    → m.signal.master_mutex ≡ 1
    → complete steps section m.signal ≡ ok after
    → Shows after (effects m.log b)
    → ((u : ℕ) → u ≢ e.thread → Calm (m.phases u))
    → Survives (not e.granted) b (act e m (inside section))
unfolding complete
inside-Survives b e m section zero after taken left shown calm = cc
inside-Survives b e m section (suc n) after taken left shown calm =
    let (r, (done, rest)) = succeeded _ (perform true section m.signal) (sym left) in
    working-Survives b e m section r n after (perform-granted e.granted section m.signal r done)
      (perform-Proceeds section m.signal r done) taken rest shown calm

entering_send-Survives :
    (b : Board) (e : Event) (m : System) (section : Section)
    → IsFirst section
    → IsSerial (effects m.log b) m
    → Survives (not e.granted) b (act e m (entering_send section))
unfolding act
entering_send-Survives b e m section first (rests r) =
    choice-Survives (not e.granted) b (m.signal.master_mutex == 0) _ m
      (λ free. first-IsSerial (effects m.log b) m e.thread section first r)
      (λ held. let unlocked = r.shown.unlocked in ground arith)
entering_send-Survives b e m section first (works w) =
    choice-Survives (not e.granted) b (m.signal.master_mutex == 0) _ m
      (λ free. let taken = w.taken in ground arith) (λ held. works w)

free-empty : {A : Type 0} (v : Vector A) → v ≡ no_entries → free v.block ≡ ok v.block
unfolding free
free-empty v empty = subst (λ w. free w.block ≡ ok w.block) (sym empty) refl

-- Such a statement then changes nothing.
free_step-empty : (f : Freeing) (s : Signal) → FreesNothing s (freeing f) → free_step f s ≡ ok s
unfolding free_step
free_step-empty callbacks_block s empty = rw (free-empty s.callbacks empty) refl
free_step-empty callbacks_alloc s empty =
    ap (λ n. ok (record s { callbacks = record (s.callbacks) { alloc = n } }))
      (sym (ap Vector.alloc empty))
free_step-empty callbacks_fill s empty =
    ap (λ n. ok (record s { callbacks = record (s.callbacks) { fill = n } }))
      (sym (ap Vector.fill empty))
free_step-empty threadlist_block s empty = rw (free-empty s.threadlist empty) refl
free_step-empty threadlist_null s empty =
    ap (λ b. ok (record s { threadlist = record (s.threadlist) { block = b } }))
      (sym (ap Vector.block empty))
free_step-empty threadlist_alloc s empty =
    ap (λ n. ok (record s { threadlist = record (s.threadlist) { alloc = n } }))
      (sym (ap Vector.alloc empty))
free_step-empty threadlist_fill s empty =
    ap (λ n. ok (record s { threadlist = record (s.threadlist) { fill = n } }))
      (sym (ap Vector.fill empty))

after_free-Calm : (f : Freeing) → Calm (after_free f)
after_free-Calm callbacks_block = tt
after_free-Calm callbacks_alloc = tt
after_free-Calm callbacks_fill = tt
after_free-Calm threadlist_block = tt
after_free-Calm threadlist_null = tt
after_free-Calm threadlist_alloc = tt
after_free-Calm threadlist_fill = tt

freeing-Survives :
    (b : Board) (e : Event) (m : System) (f : Freeing)
    → FreesNothing m.signal (freeing f)
    → Calm (m.phases e.thread)
    → IsSerial (effects m.log b) m
    → Survives (not e.granted) b (act e m (freeing f))
unfolding act
freeing-Survives b e m f empty now s =
    rw (free_step-empty f m.signal empty)
      (stays-IsSerial (effects m.log b) m e.thread (after_free f) now (after_free-Calm f) s)

undisturbed-Survives :
    (b : Board) (e : Event) (m : System) (p : Phase)
    → FreesNothing m.signal p
    → Calm p
    → Calm (m.phases e.thread)
    → IsSerial (effects m.log b) m
    → Survives (not e.granted) b (act e m p)
unfolding act
undisturbed-Survives b e m outside keeps calm now s =
    stays-IsSerial (effects m.log b) m e.thread (wished e.wish) now (wished-Calm e.wish) s
  where
    wished-Calm : (w : Wish) → Calm (wished w)
    wished-Calm (calls c) = tt
    wished-Calm sends = tt
undisturbed-Survives b e m (entering c) keeps calm now s = entering-Survives b e m c s
undisturbed-Survives b e m (entering_send section) keeps calm now s =
    entering_send-Survives b e m section calm s
undisturbed-Survives b e m (inside section) keeps calm now s = absurd calm
undisturbed-Survives b e m testing keeps calm now s =
    stays-IsSerial (effects m.log b) m e.thread _ now (tested m.signal.shutdown) s
  where
    tested : (set : Bool) → Calm (if set then outside else storing)
    tested true = tt
    tested false = tt
undisturbed-Survives b e m storing keeps calm now s =
    stays-IsSerial (effects m.log b) (record m { signal = flagged true m.signal }) e.thread
      (entering_send (notifying 0)) now refl (flagged-IsSerial (effects m.log b) m s)
undisturbed-Survives b e m sleeping keeps calm now s =
    stays-IsSerial (effects m.log b) m e.thread _ now (slept e.granted) s
  where
    slept : (late : Bool) → Calm (if late then freeing callbacks_block else entering_send checking)
    slept true = tt
    slept false = tt
undisturbed-Survives b e m (freeing f) empty calm now s = freeing-Survives b e m f empty now s

-- The thread that steps does not hold the mutex, or it is the owner of it.
pub advance-Survives :
    (b : Board) (e : Event) (m : System)
    → FreesNothing m.signal (m.phases e.thread)
    → IsSerial (effects m.log b) m
    → Survives (not e.granted) b (advance e m)
unfolding advance
advance-Survives b e m q (rests r) =
    let calm = r.calm e.thread in
    undisturbed-Survives b e m (m.phases e.thread) q calm calm (rests r)
advance-Survives b e m q (works w) = elim (Bool-cases (e.thread == w.owner)) [
  | inl same ↦
      let is_owner = (==_iff e.thread w.owner).0 same in
      subst (λ p. Survives (not e.granted) b (act e m p)) (sym (ap m.phases is_owner ∙ w.here))
        (inside-Survives b e m w.section w.steps w.after w.taken w.rest w.shown
          (λ u ne. w.calm u (λ e'. ne (e' ∙ sym is_owner))))
  | inr other ↦
      let calm = w.calm e.thread (λ e'. ground arith) in
      undisturbed-Survives b e m (m.phases e.thread) q calm calm (works w)
]
