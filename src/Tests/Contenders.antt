-- ===== src/Tests/Contenders.antt =====
-- Two threads at one mutex, the waits of the rounds, and the random numbers.
use libevsig.Base.{
  ℕ, ◌≡◌, ◌≢◌, refl, ◌<◌, ◌≤◌, ◌⊎◌, Bool, true, false, List, [], ◌∷◌, some, arith, ◌==◌, Bool-cases,
  inl, inr, ℕ, suc, zero, ◌+◌, ◌^◌, ok, length, none,
}
use libevsig.Mutex.Backoff.{pauses, nanosleep, back_off, spinwait_at, back_off-bounded}
use libevsig.Mutex.Contention.{outside, waiting, inside, run, advance, compare_exchange, unlocked}
use libevsig.Mutex.Waiting.{lock_rounds, waits, lock_rounds-waits}
use libevsig.Mutex.Random.{fnv_hash, rand64_calls, rand64_calls-ne_zero}
use libevsig.Mutex.Exclusion.{run-exclusive, run-live}

-- Both call; the second gets in, and the first fails.
abbrev contended : List (Bool × ℕ)
contended = (false, 1) ∷ (false, 2) ∷ (true, 2) ∷ (false, 2) ∷ (false, 1) ∷ []

two_inside : (run contended unlocked).phases 2 ≡ inside
unfolding run advance compare_exchange
two_inside = refl

run-exclusive_example : (run contended unlocked).phases 1 ≢ inside
run-exclusive_example = run-exclusive contended 2 1 two_inside (omega arith)

-- Then the second unlocks.
abbrev left : List (Bool × ℕ)
left = (false, 1) ∷ (false, 2) ∷ (true, 2) ∷ (false, 2) ∷ (false, 1) ∷ (false, 2) ∷ []

one_waits : (run left unlocked).phases 1 ≡ waiting 1
unfolding run advance compare_exchange
one_waits = refl

nobody : (u : ℕ) → (run left unlocked).phases u ≢ inside
unfolding run advance compare_exchange
nobody u e = elim (Bool-cases (u == 2)) [
  | inl two ↦ let bad : outside ≡ inside = rw two at e in cc
  | inr other ↦ elim (Bool-cases (u == 1)) [
    | inl one ↦ let bad : waiting 1 ≡ inside = rw (other, one) at e in cc
    | inr neither ↦ let bad : outside ≡ inside = rw (other, neither) at e in cc
  ]
]

run-live_example : (advance false 1 (run left unlocked)).phases 1 ≡ inside
run-live_example = run-live left 1 1 one_waits nobody

back_off-bounded_example :
    ((n : ℕ) × ((back_off 99 (spinwait_at 3) ≡ some (pauses n)) × (0 < n) × (n < 8)))
    ⊎ ((ns : ℕ) × ((back_off 99 (spinwait_at 3) ≡ some (nanosleep ns))
          × (1024 ≤ ns)
          × (ns < 1572864)))
back_off-bounded_example = back_off-bounded 99 3

-- The mutex is held in two rounds.
abbrev held_twice : ℕ → ℕ
held_twice zero = 1
held_twice (suc zero) = 1
held_twice (suc (suc k)) = 0

abbrev random : ℕ → ℕ
random k = 99 + k

held_before : (i : ℕ) → i < 2 → held_twice i ≢ 0
held_before zero lt e = absurd (omega (arith, e))
held_before (suc zero) lt e = absurd (omega (arith, e))
held_before (suc (suc i)) lt e = absurd (omega arith)

abbrev never : ℕ → Bool
never k = false

fails_before : (i : ℕ) → i < 2 → compare_exchange (never i) (held_twice i) ≡ none
unfolding compare_exchange
fails_before zero lt = refl
fails_before (suc zero) lt = refl
fails_before (suc (suc i)) lt = absurd (omega arith)

gets : compare_exchange (never 2) (held_twice 2) ≡ some 1
unfolding compare_exchange
gets = refl

lock_rounds-waits_example :
    (lock_rounds 9 never held_twice random ≡ ok (waits random 0 2))
    × (length (waits random 0 2) ≡ 2)
lock_rounds-waits_example =
    lock_rounds-waits 9 2 never held_twice random fails_before gets (omega arith)

-- The published value of FNV-1a for the letter "a".
fnv_hash-letter : fnv_hash (97 ∷ []) ≡ 12638187200555641996
unfolding fnv_hash
fnv_hash-letter = refl

random_three_times : (r : ℕ) × ((rand64_calls 3 1 random 12345 ≡ ok r) × (r ≢ 0) × (r < 2 ^ 64))
random_three_times =
    rand64_calls-ne_zero 3 0 random 12345 (omega arith) (λ e. absurd (omega (arith, e)))
