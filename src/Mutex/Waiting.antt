-- ===== src/Mutex/Waiting.antt =====
-- The two loops that wait for the mutex, `evsig_lock` and `evsig_await_unlock`, round by round.
use libevsig.Base.{
  ℕ, zero, suc, ◌+◌, ◌<◌, ◌≡◌, ◌≢◌, ==-ne, refl, ap, inl, inr, Bool, true, false, Option, none,
  some, List, [], ◌∷◌, Result, ok, hang, ◌>>=◌, ◌==◌, if◌then◌else◌, arith, length,
}
use libevsig.Mutex.Backoff.{Wait, back_off, next_spinwait, spinwait_at, back_off-bounded}
use libevsig.Mutex.Contention.{compare_exchange}

abbrev is_some {ℓ} : {A : Type ℓ} → Option A → Bool
is_some none = false
is_some (some a) = true

abbrev waited : Option Wait → List Wait → List Wait
waited none ws = ws
waited (some w) ws = w ∷ ws

-- The loop from its `k`-th round on, with the random number of each round; `over` is the test that
-- ends it. The result is what the thread waited for.
unfoldable pub spin_until : ℕ → (ℕ → Bool) → (ℕ → ℕ) → ℕ → ℕ → Result (List Wait)
unfolding back_off next_spinwait
spin_until zero over random k spinwait = hang
spin_until (suc fuel) over random k spinwait =
    let rest = spin_until fuel over random (suc k) (next_spinwait spinwait) in
    if over k then ok [] else rest >>= λ ws. ok (waited (back_off (random k) spinwait) ws)

-- `evsig_await_unlock`, where round `k` reads the value `word k`.
unfoldable pub evsig_await_unlock : ℕ → (ℕ → ℕ) → (ℕ → ℕ) → Result (List Wait)
unfolding spin_until
evsig_await_unlock fuel word random = spin_until fuel (λ k. word k == 0) random 0 128

-- The loop of `evsig_lock`, where round `k` finds the value `word k` and fails spuriously or not.
unfoldable pub lock_rounds : ℕ → (ℕ → Bool) → (ℕ → ℕ) → (ℕ → ℕ) → Result (List Wait)
unfolding spin_until compare_exchange
lock_rounds fuel spurious word random =
    spin_until fuel (λ k. is_some (compare_exchange (spurious k) (word k))) random 0 128

-- The waits of the `n` rounds from the `k`-th on.
abbrev pub waits : (ℕ → ℕ) → ℕ → ℕ → List Wait
waits random k zero = []
waits random k (suc n) = waited (back_off (random k) (spinwait_at k)) (waits random (suc k) n)

waits-length : (random : ℕ → ℕ) (k n : ℕ) → length (waits random k n) ≡ n
waits-length random k zero = refl
waits-length random k (suc n) = elim (back_off-bounded (random k) k) [
  | inl short ↦ rw short.1.0 (ap suc (waits-length random (suc k) n))
  | inr long ↦ rw long.1.0 (ap suc (waits-length random (suc k) n))
]

spin_until-ends :
    (fuel : ℕ) (over : ℕ → Bool) (random : ℕ → ℕ) (k n : ℕ)
    → ((i : ℕ) → i < n → over (k + i) ≡ false)
    → over (k + n) ≡ true
    → n < fuel
    → spin_until fuel over random k (spinwait_at k) ≡ ok (waits random k n)
unfolding spin_until spinwait_at
spin_until-ends zero over random k n before last enough = absurd (omega arith)
spin_until-ends (suc fuel) over random k zero before last enough =
    let here : k + 0 ≡ k = omega arith in let now = rw here at last in rw now refl
spin_until-ends (suc fuel) over random k (suc n) before last enough =
    let here : k + 0 ≡ k = omega arith in
    let going : over k ≡ false = rw here at (before 0 (omega arith)) in
    let shift : k + suc n ≡ suc k + n = omega arith in
    let rest =
      spin_until-ends fuel over random (suc k) n
        (λ i lt.
          let move : suc k + i ≡ k + suc i = omega arith in rw move (before (suc i) (omega arith)))
        (rw shift at last) (omega arith) in
    rw (going, rest) refl

spin_until-first :
    (fuel : ℕ) (over : ℕ → Bool) (random : ℕ → ℕ) (n : ℕ)
    → ((i : ℕ) → i < n → over i ≡ false)
    → over n ≡ true
    → n < fuel
    → (spin_until fuel over random 0 128 ≡ ok (waits random 0 n)) × (length (waits random 0 n) ≡ n)
unfolding spinwait_at
spin_until-first fuel over random n before last enough = (
  spin_until-ends fuel over random 0 n
      (λ i lt. let same : 0 + i ≡ i = omega arith in rw same (before i lt))
      (let same : 0 + n ≡ n = omega arith in rw same last) enough,
  waits-length random 0 n,
)

-- `evsig_await_unlock` returns in the first round that reads 0, and has then waited once for each
-- round before it, as long as `back_off` says for that round and its random number.
pub evsig_await_unlock-waits :
    (fuel n : ℕ) (word random : ℕ → ℕ)
    → ((i : ℕ) → i < n → word i ≢ 0)
    → word n ≡ 0
    → n < fuel
    → (evsig_await_unlock fuel word random ≡ ok (waits random 0 n))
      × (length (waits random 0 n) ≡ n)
unfolding evsig_await_unlock
evsig_await_unlock-waits fuel n word random before free enough =
    spin_until-first fuel (λ k. word k == 0) random n (λ i lt. ==-ne (before i lt)) (rw free refl)
      enough

-- `evsig_lock` returns in the first round whose compare-and-exchange succeeds, and has then waited
-- once for each round before it, as long as `back_off` says for that round and its random number.
pub lock_rounds-waits :
    (fuel n : ℕ) (spurious : ℕ → Bool) (word random : ℕ → ℕ)
    → ((i : ℕ) → i < n → compare_exchange (spurious i) (word i) ≡ none)
    → compare_exchange (spurious n) (word n) ≡ some 1
    → n < fuel
    → (lock_rounds fuel spurious word random ≡ ok (waits random 0 n))
      × (length (waits random 0 n) ≡ n)
unfolding lock_rounds
lock_rounds-waits fuel n spurious word random before gets enough =
    spin_until-first fuel (λ k. is_some (compare_exchange (spurious k) (word k))) random n
      (λ i lt. ap is_some (before i lt)) (ap is_some gets) enough
