-- ===== src/Shutdown/Parallel/Progress.antt =====
-- Whoever holds the mutex can give it back.
use libevsig.Base.{
  Bool, ℕ, zero, suc, ◌≡◌, refl, sym, subst, true, List, ok, succeeded, replicate, ==_refl, inl,
  inr,
}
use libevsig.Vector.{Yields, ok-injective}
use libevsig.Shutdown.Ops.{Signal}
use libevsig.Shutdown.Parallel.Sections.{Section, Next, goes_on, leaves, perform, complete}
use libevsig.Shutdown.Parallel.Steps.{
  sends, inside, System, Event, put, gone, act, advance, run, start,
}
use libevsig.Shutdown.Parallel.Contract.{Board, Shows, effects}
use libevsig.Shutdown.Parallel.Serial.{KeepsAllLists, any_refused, Serialises, run-Serialises}

-- The next step of a thread that is answered yes.
abbrev pub own_step : ℕ → Event
own_step t = record { thread = t; wish = sends; granted = true }

-- The thread does its steps alone, and the signal is then this one.
abbrev Reaches : ℕ → System → Signal → Type 0
Reaches t m after = (k : ℕ) × Yields (run (replicate k (own_step t)) m) (λ m'. m'.signal ≡ after)

stepped : System → ℕ → Next → Signal → System
stepped m t next s = record m { signal = s; phases = put t (gone next) m.phases }

first_step :
    (t : ℕ) (m : System) (section : Section) (next : Next) (s after : Signal)
    → m.phases t ≡ inside section
    → perform true section m.signal ≡ ok (next, s)
    → Reaches t (stepped m t next s) after
    → Reaches t m after
unfolding run advance act stepped
first_step t m section next s after here done (k, rest) = (suc k, rw (here, done) rest)

onward :
    (n t : ℕ) (m : System) (r : Next × Signal) (after : Signal)
    → ((m' : System) (section : Section)
        → m'.phases t ≡ inside section
        → complete n section m'.signal ≡ ok after
        → Reaches t m' after)
    → elim r.0 [ goes_on rest ↦ complete n rest r.1 | leaves a ↦ ok r.1 ] ≡ ok after
    → Reaches t (stepped m t r.0 r.1) after
unfolding run stepped
onward n t m (goes_on rest, s) after below left =
    below (stepped m t (goes_on rest) s) rest (rw (==_refl t) refl) left
onward n t m (leaves a, s) after below left =
    (zero, (stepped m t (leaves a) s, refl, ok-injective left))

finishes :
    (n t : ℕ) (m : System) (section : Section) (after : Signal)
    → m.phases t ≡ inside section
    → complete n section m.signal ≡ ok after
    → Reaches t m after
unfolding complete
finishes zero t m section after here done = cc
finishes (suc n) t m section after here done =
    let (r, (performed, rest)) = succeeded _ (perform true section m.signal) (sym done) in
    first_step t m section r.0 r.1 after here performed
      (onward n t m r after (λ m' section' h d. finishes n t m' section' after h d) rest)

finishing :
    (refused : Bool) (b : Board) (m : System)
    → Serialises refused b (ok m)
    → (t : ℕ) × (k : ℕ) × Yields
        (run (replicate k (own_step t)) m)
        (λ m'. Shows m'.signal (effects m.log b))
unfolding run
finishing refused b m (inl shown) = (zero, zero, (m, refl, shown))
finishing refused b m (inr (t, section, steps, after, taken, here, rest, shown)) =
    let (k, (m', reached, same)) = finishes steps t m section after here rest in
    (t, k, (m', reached, subst (λ s. Shows s (effects m.log b)) (sym same) shown))

-- However the statements of threads have interleaved at a shutdown signal whose mutex was free at first
-- and whose lists held their entries, if each of the seven statements that end a `send_block` found the
-- list that it changes empty, with a null pointer and no room, and if the process has not ended: some
-- thread, by its own next steps alone, with memory to be had, brings the signal to where the mutex
-- is free and all calls that took it are done, one after the other.
pub run-progresses :
    (es : List Event) (s : Signal) (b : Board) (m : System)
    → KeepsAllLists es (ok (start s))
    → Shows s b
    → run es (start s) ≡ ok m
    → (t : ℕ) × (k : ℕ) × Yields
        (run (replicate k (own_step t)) m)
        (λ m'. Shows m'.signal (effects m.log b))
run-progresses es s b m keeps shown reached =
    finishing (any_refused es) b m
      (subst (Serialises (any_refused es) b) reached (run-Serialises es s b keeps shown))
