-- ===== src/Shutdown/Parallel/Serial.antt =====
-- The operations behind the mutex are atomic: every interleaving is one of them after the other.
use libevsig.Base.{
  not, any, ◌||◌, ℕ, ◌≡◌, refl, ◌⊎◌, inl, inr, Bool, true, false, List, [], ◌∷◌, Result, ok, exit,
  fault, hang, ◌>>=◌, arith,
}
use libevsig.Shutdown.Ops.{Signal}
use libevsig.Shutdown.Parallel.Sections.{Section, complete}
use libevsig.Shutdown.Parallel.Steps.{inside, System, Event, advance, run, start}
use libevsig.Shutdown.Parallel.Contract.{Board, Shows, effects}
use libevsig.Shutdown.Parallel.Invariant.{rests, works}
use libevsig.Shutdown.Parallel.Survival.{FreesNothing, Survives, advance-Survives}

-- A schedule in which the statements that end a send find empty lists, each at its own time.
abbrev pub KeepsAllLists : List Event → Result System → Type 0
KeepsAllLists [] r = Unit
KeepsAllLists (e ∷ es) (ok m) =
    FreesNothing m.signal (m.phases e.thread) × KeepsAllLists es (advance e m)
KeepsAllLists (e ∷ es) _ = Unit

-- An answer was no.
abbrev pub any_refused : List Event → Bool
any_refused es = any (λ (e : Event). not e.granted) es

weakened :
    (b : Board) (r : Result System) (few many : Bool)
    → (few ≡ true → many ≡ true)
    → Survives few b r
    → Survives many b r
weakened b (ok m) few many more s = s
weakened b (exit n) few many more (one, why) = (one, more why)
weakened b fault few many more s = s
weakened b hang few many more s = s

run-from :
    (es : List Event) (refused : Bool) (b : Board) (r : Result System)
    → KeepsAllLists es r
    → Survives refused b r
    → Survives (refused || any_refused es) b (r >>= run es)
unfolding run
run-from [] refused b (ok m) q s = s
run-from (e ∷ es) refused b (ok m) (first, rest) s =
    weakened b (advance e m >>= run es) (not e.granted || any_refused es)
      (refused || any_refused (e ∷ es)) (λ why. ground arith)
      (run-from es (not e.granted) b (advance e m) rest (advance-Survives b e m first s))
run-from es refused b (exit n) q (one, why) = (one, rw why refl)
run-from es refused b fault q s = absurd s
run-from es refused b hang q s = absurd s

-- The signal shows what the calls of the log did, one after the other, or a thread that holds the
-- mutex makes it show that when it finishes its statements.
abbrev pub Serialises : Bool → Board → Result System → Type 0
Serialises refused b (ok m) =
    Shows m.signal (effects m.log b)
    ⊎ ((t : ℕ) × (section : Section) × (steps : ℕ) × (s : Signal) × (m.signal.master_mutex ≡ 1)
        × (m.phases t ≡ inside section)
        × (complete steps section m.signal ≡ ok s)
        × Shows s (effects m.log b))
Serialises refused b (exit n) = (n ≡ 1) × (refused ≡ true)
Serialises refused b fault = ⊥
Serialises refused b hang = ⊥

survived :
    (refused : Bool) (b : Board) (r : Result System) → Survives refused b r → Serialises refused b r
survived refused b (ok m) (rests r) = inl r.shown
survived refused b (ok m) (works w) =
    inr (w.owner, w.section, w.steps, w.after, w.taken, w.here, w.rest, w.shown)
survived refused b (exit n) s = s
survived refused b fault s = s
survived refused b hang s = s

pub run-Serialises :
    (es : List Event) (s : Signal) (b : Board)
    → KeepsAllLists es (ok (start s))
    → Shows s b
    → Serialises (any_refused es) b (run es (start s))
run-Serialises es s b q shown =
    survived (any_refused es) b (run es (start s))
      (run-from es false b (ok (start s)) q (rests (record { shown = shown; calm = λ t. tt })))
