-- ===== src/Mutex/Contention.antt =====
-- Several threads that lock and unlock one mutex, in any interleaving of their atomic steps.
use libevsig.Base.{ℕ, suc, Bool, not, ◌&&◌, Option, none, some, List, [], ◌∷◌, ◌==◌, if◌then◌else◌}
use libevsig.Mutex.{evsig_unlock}

-- Where a thread is: in no call and without the mutex, in the `k`-th round of `evsig_lock`, or
-- between its return and the call of `evsig_unlock`.
pub data Phase : Type 0 where
  outside : Phase
  waiting : ℕ → Phase
  inside : Phase

pub record Contention : Type 0 where
  pub mutex : ℕ
  pub phases : ℕ → Phase

-- `atomic_compare_exchange_weak_explicit(m, &expected, 1, ...)` with `expected` 0: it may also fail
-- for no reason.
unfoldable pub compare_exchange : Bool → ℕ → Option ℕ
compare_exchange spurious m = if m == 0 && not spurious then some 1 else none

abbrev pub put : ℕ → Phase → (ℕ → Phase) → ℕ → Phase
put t p phases u = if u == t then p else phases u

-- What one attempt of thread `t` in round `k` makes of the mutex and of the thread.
abbrev pub attempted : ℕ → ℕ → Contention → Option ℕ → Contention
attempted t k c none = record c { phases = put t (waiting (suc k)) c.phases }
attempted t k c (some m) = record { mutex = m; phases = put t inside c.phases }

unfoldable pub act : Bool → ℕ → Contention → Phase → Contention
unfolding compare_exchange evsig_unlock
act spurious t c outside = record c { phases = put t (waiting 0) c.phases }
act spurious t c (waiting k) = attempted t k c (compare_exchange spurious c.mutex)
act spurious t c inside = record { mutex = evsig_unlock c.mutex; phases = put t outside c.phases }

-- The next step of thread `t`: it calls `evsig_lock`, makes an attempt, or calls `evsig_unlock`.
unfoldable pub advance : Bool → ℕ → Contention → Contention
unfolding act
advance spurious t c = act spurious t c (c.phases t)

-- The steps of a schedule, the first one first.
unfoldable pub run : List (Bool × ℕ) → Contention → Contention
unfolding advance
run [] c = c
run ((spurious, t) ∷ rest) c = run rest (advance spurious t c)

abbrev pub unlocked : Contention
unlocked = record { mutex = 0; phases = λ t. outside }
