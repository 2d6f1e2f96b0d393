-- ===== src/Shutdown/Parallel/Invariant.antt =====
-- What holds of a signal at any time: its lists are those of calls made one after the other.
use libevsig.Base.{
  ℕ, ◌≡◌, ◌≢◌, refl, sym, ◌∙◌, ap, subst, inl, inr, true, Bool-cases, ◌∷◌, ◌==◌, ==_refl, ==-ne, ok,
  arith,
}
use libevsig.Vector.{ok-injective}
use libevsig.Shutdown.Ops.{Signal}
use libevsig.Shutdown.Parallel.Sections.{
  After, Section, notifying, checking, Next, goes_on, leaves, returns, polls, sleeps, frees,
  complete,
}
use libevsig.Shutdown.Parallel.Steps.{
  Call, begin, Phase, entering_send, inside, System, held, put, gone,
}
use libevsig.Shutdown.Parallel.Contract.{Board, Shows, effect, effects, operate-Shows}
use libevsig.Shutdown.Parallel.Flag.{flagged, complete-flagged}
use libevsig.Shutdown.Parallel.Polling.{complete-notifying, complete-checking}
use libevsig.Shutdown.Parallel.Statements.{Proceeds}
use libevsig.Shutdown.Parallel.Finishing.{operate-Finishes}

abbrev pub IsFirst : Section → Type 0
IsFirst (notifying i) = i ≡ 0
IsFirst checking = Unit
IsFirst _ = ⊥

-- A thread that does not hold the mutex.
abbrev pub Calm : Phase → Type 0
Calm (entering_send section) = IsFirst section
Calm (inside section) = ⊥
Calm _ = Unit

pub record Rests (b : Board) (m : System) : Type 0 where
  pub shown : Shows m.signal b
  pub calm : (t : ℕ) → Calm (m.phases t)

-- One thread holds the mutex, and what is left of its call leads to what the board says.
pub record Works (b : Board) (m : System) : Type 0 where
  pub owner : ℕ
  pub section : Section
  pub steps : ℕ
  pub after : Signal
  pub taken : m.signal.master_mutex ≡ 1
  pub here : m.phases owner ≡ inside section
  pub calm : (t : ℕ) → t ≢ owner → Calm (m.phases t)
  pub rest : complete steps section m.signal ≡ ok after
  pub shown : Shows after b

-- What holds of the signal at any time, `b` being its lists after the calls that took the mutex.
pub data IsSerial (b : Board) (m : System) : Type 0 where
  rests : Rests b m → IsSerial b m
  works : Works b m → IsSerial b m

put_self : (t : ℕ) (p : Phase) (phases : ℕ → Phase) → put t p phases t ≡ p
put_self t p phases = rw (==_refl t) refl

put-ne : (t u : ℕ) (p : Phase) (phases : ℕ → Phase) → u ≢ t → put t p phases u ≡ phases u
put-ne t u p phases ne = rw (==-ne ne) refl

-- Written at one thread, and calm at the others.
put-Calm :
    (t u : ℕ) (p : Phase) (phases : ℕ → Phase)
    → Calm p
    → (u ≢ t → Calm (phases u))
    → Calm (put t p phases u)
put-Calm t u p phases new old = elim (Bool-cases (u == t)) [
  | inl same ↦ rw same new
  | inr other ↦ rw other (old (λ e. ground arith))
]

pub entered : (p : Phase) (section : Section) → p ≡ inside section → Calm p → ⊥
entered p section e calm = subst Calm e calm

-- A calm thread goes on to be calm.
pub stays-IsSerial :
    (b : Board) (m : System) (t : ℕ) (p : Phase)
    → Calm (m.phases t)
    → Calm p
    → IsSerial b m
    → IsSerial b (record m { phases = put t p m.phases })
stays-IsSerial b m t p now later (rests r) =
    rests (record { shown = r.shown; calm = λ u. put-Calm t u p m.phases later (λ ne. r.calm u) })
stays-IsSerial b m t p now later (works w) = works (record {
  owner = w.owner;
  section = w.section;
  steps = w.steps;
  after = w.after;
  taken = w.taken;
  here =
      put-ne t w.owner p m.phases
        (λ e. entered (m.phases t) w.section (ap m.phases (sym e) ∙ w.here) now)
      ∙ w.here;
  calm = λ u ne. put-Calm t u p m.phases later (λ other. w.calm u ne);
  rest = w.rest;
  shown = w.shown;
})

-- Whoever takes the free mutex has its operation before it, the effect of which the log now counts.
pub taken-IsSerial :
    (b : Board) (m : System) (t : ℕ) (c : Call)
    → Rests b m
    → IsSerial (effect c b) (record m {
      signal = record (m.signal) { master_mutex = 1 };
      phases = put t (inside (begin c)) m.phases;
      log = c ∷ m.log;
    })
taken-IsSerial b m t c r =
    let (after, done, shown) = operate-Shows c m.signal b r.shown in
    let (n, left) = operate-Finishes c m.signal after r.shown.unlocked done in
    works (record {
      owner = t;
      section = begin c;
      steps = n;
      after = after;
      taken = refl;
      here = put_self t (inside (begin c)) m.phases;
      calm = λ u ne. subst Calm (sym (put-ne t u (inside (begin c)) m.phases ne)) (r.calm u);
      rest = left;
      shown = shown;
    })

-- The statement that the owner does next.
pub stepped-IsSerial :
    (b : Board) (m : System) (t : ℕ) (n : ℕ) (after : Signal) (next : Next) (s : Signal)
    → Proceeds m.signal (next, s)
    → m.signal.master_mutex ≡ 1
    → elim next [ goes_on rest ↦ complete n rest s | leaves a ↦ ok s ] ≡ ok after
    → Shows after (effects m.log b)
    → ((u : ℕ) → u ≢ t → Calm (m.phases u))
    → IsSerial (effects m.log b) (record m { signal = s; phases = put t (gone next) m.phases })
stepped-IsSerial b m t n after (goes_on rest) s same taken left shown calm = works (record {
  owner = t;
  section = rest;
  steps = n;
  after = after;
  taken = same ∙ taken;
  here = put_self t (inside rest) m.phases;
  calm = λ u ne. subst Calm (sym (put-ne t u (inside rest) m.phases ne)) (calm u ne);
  rest = left;
  shown = shown;
})
stepped-IsSerial b m t n after (leaves a) s p taken left shown calm = rests (record {
  shown = subst (λ s'. Shows s' (effects m.log b)) (sym (ok-injective left)) shown;
  calm = λ u. put-Calm t u (gone (leaves a)) m.phases (left-Calm a) (calm u);
})
  where
    left-Calm : (a : After) → Calm (gone (leaves a))
    left-Calm returns = tt
    left-Calm polls = tt
    left-Calm sleeps = tt
    left-Calm frees = tt

-- `send_block` takes the mutex: what it does with it changes no list.
polls-IsSerial :
    (b : Board) (m : System) (t : ℕ) (section : Section) (after : Signal) (n : ℕ)
    → complete n section (held m.signal) ≡ ok after
    → Shows after b
    → Rests b m
    → IsSerial b (record m { signal = held m.signal; phases = put t (inside section) m.phases })
polls-IsSerial b m t section after n rest shown r = works (record {
  owner = t;
  section = section;
  steps = n;
  after = after;
  taken = refl;
  here = put_self t (inside section) m.phases;
  calm = λ u ne. subst Calm (sym (put-ne t u (inside section) m.phases ne)) (r.calm u);
  rest = rest;
  shown = shown;
})

free-Shows : (b : Board) (s : Signal) → Shows s b → Shows (record s { master_mutex = 0 }) b
free-Shows b s w = record {
  unlocked = refl;
  threads = w.threads;
  callbacks = w.callbacks;
  last_id = w.last_id;
  exits = w.exits;
}

pub first-IsSerial :
    (b : Board) (m : System) (t : ℕ) (section : Section)
    → IsFirst section
    → Rests b m
    → IsSerial b (record m { signal = held m.signal; phases = put t (inside section) m.phases })
first-IsSerial b m t (notifying i) first r =
    let (n, rest) = complete-notifying (held m.signal) b.callbacks r.shown.callbacks in
    polls-IsSerial b m t (notifying i) _ n
      (subst
        (λ k.
          complete n (notifying k) (held m.signal) ≡ ok (record (m.signal) { master_mutex = 0 }))
        (sym first) rest)
      (free-Shows b m.signal r.shown) r
first-IsSerial b m t checking first r =
    polls-IsSerial b m t checking _ 2 (complete-checking (held m.signal))
      (free-Shows b m.signal r.shown) r
first-IsSerial b m t section first r = absurd first

flagged-Shows : (b : Board) (s : Signal) → Shows s b → Shows (flagged true s) b
flagged-Shows b s w = record {
  unlocked = w.unlocked;
  threads = w.threads;
  callbacks = w.callbacks;
  last_id = w.last_id;
  exits = w.exits;
}

-- The flag is set while others hold the mutex.
pub flagged-IsSerial :
    (b : Board) (m : System)
    → IsSerial b m
    → IsSerial b (record m { signal = flagged true m.signal })
flagged-IsSerial b m (rests r) =
    rests (record { shown = flagged-Shows b m.signal r.shown; calm = r.calm })
flagged-IsSerial b m (works w) = works (record {
  owner = w.owner;
  section = w.section;
  steps = w.steps;
  after = flagged true w.after;
  taken = w.taken;
  here = w.here;
  calm = w.calm;
  rest = complete-flagged true w.steps w.section m.signal w.after w.rest;
  shown = flagged-Shows b w.after w.shown;
})
