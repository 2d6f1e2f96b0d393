-- ===== src/Mutex/Backoff.antt =====
-- The pauses between two attempts at a lock, the same in `evsig_lock` and `evsig_await_unlock`.
use libevsig.Base.{
  ℕ, zero, suc, ◌+◌, ◌-◌, ◌*◌, ◌/◌, ◌%◌, ◌^◌, ◌≤◌, ◌<◌, ◌≡◌, refl, ap, ◌∙◌, Bool, true, Option,
  none, some, ◌&&◌, ltb, leb, lt→ltb, ltb→lt, ◌==◌, Bool-cases, inl, inr, ◌⊎◌, if◌then◌else◌, arith,
}

-- `&` of two words of `w` bits.
unfoldable pub band : ℕ → ℕ → ℕ → ℕ
band zero a b = 0
band (suc w) a b = (if a % 2 == 1 && b % 2 == 1 then 1 else 0) + 2 * band w (a / 2) (b / 2)

-- `rand64() & ((spinwait >> 1)-1)`, where `r` is the random number, and its guard.
unfoldable pub jitter : ℕ → ℕ → ℕ
unfolding band
jitter r spinwait =
    let masked = band 64 r (spinwait / 2 - 1) in if ltb (spinwait / 2) masked then 0 else masked

-- How a thread waits: so many processor pauses, or a sleep of so many nanoseconds.
pub data Wait : Type 0 where
  pauses : ℕ → Wait
  nanosleep : ℕ → Wait

unfoldable pub back_off : ℕ → ℕ → Option Wait
unfolding jitter
back_off r spinwait =
    let slep = spinwait + jitter r spinwait in
    if ltb 1 spinwait
    then some (if ltb slep 1024 then pauses (slep / 128) else nanosleep slep)
    else none

-- `if (spinwait < 1024*1024) spinwait *= 2`, in 32 bits.
unfoldable pub next_spinwait : ℕ → ℕ
next_spinwait spinwait = if ltb spinwait (1024 * 1024) then spinwait * 2 % 2 ^ 32 else spinwait

-- The variable `spinwait` in the `k`-th round.
unfoldable pub spinwait_at : ℕ → ℕ
unfolding next_spinwait
spinwait_at zero = 128
spinwait_at (suc k) = next_spinwait (spinwait_at k)

odd-le : (a b rest : ℕ) → (a % 2 == 1 && b % 2 == 1) ≡ true → rest ≤ b / 2 → 1 + 2 * rest ≤ b
odd-le a b rest both le = ground arith

band-le : (w a b : ℕ) → band w a b ≤ b
unfolding band
band-le zero a b = omega arith
band-le (suc w) a b = elim (Bool-cases (a % 2 == 1 && b % 2 == 1)) [
  | inl both ↦
      let rest = band-le w (a / 2) (b / 2) in
      rw both (odd-le a b (band w (a / 2) (b / 2)) both rest)
  | inr unset ↦ rw unset (omega (arith, band-le w (a / 2) (b / 2)))
]

-- The random part is below half of `spinwait`: the guard on it never takes effect.
jitter-lt : (r spinwait : ℕ) → 2 ≤ spinwait → jitter r spinwait < spinwait / 2
unfolding jitter
jitter-lt r spinwait two =
    let small = band-le 64 r (spinwait / 2 - 1) in
    elim (Bool-cases (ltb (spinwait / 2) (band 64 r (spinwait / 2 - 1)))) [
      | inl guarded ↦ rw guarded (omega arith)
      | inr taken ↦ rw taken (omega (arith, small))
    ]

abbrev in_range : ℕ → Bool
in_range k = leb 128 (spinwait_at k) && leb (spinwait_at k) (1024 * 1024)

abbrev all_below : (ℕ → Bool) → ℕ → Bool
all_below p zero = true
all_below p (suc n) = p n && all_below p n

all_below-lt : (p : ℕ → Bool) (n k : ℕ) → all_below p n ≡ true → k < n → p k ≡ true
all_below-lt p zero k h lt = absurd (omega arith)
all_below-lt p (suc n) k h lt = elim (Bool-cases (k == n)) [
  | inl last ↦ ground arith
  | inr before ↦ all_below-lt p n k (ground arith) (ground arith)
]

-- From the thirteenth round on it stays at its greatest value.
spinwait_at-late : (k : ℕ) → spinwait_at (k + 13) ≡ 1024 * 1024
unfolding spinwait_at next_spinwait
spinwait_at-late zero = refl
spinwait_at-late (suc k) =
    let one_more : suc k + 13 ≡ suc (k + 13) = omega arith in
    ap spinwait_at one_more ∙ ap next_spinwait (spinwait_at-late k)

early : all_below in_range 13 ≡ true
unfolding spinwait_at next_spinwait
early = refl

spinwait_at-range : (k : ℕ) → (128 ≤ spinwait_at k) × (spinwait_at k ≤ 1024 * 1024)
spinwait_at-range k = elim (Bool-cases (ltb k 13)) [
  | inl soon ↦
      let checked = all_below-lt in_range 13 k early (ltb→lt k 13 soon) in
      (ground arith, ground arith)
  | inr late ↦
      let top = spinwait_at-late (k - 13) in
      let same : k - 13 + 13 ≡ k = ground arith in
      let here : spinwait_at k ≡ 1024 * 1024 = rw same at top in
      (omega (arith, here), omega (arith, here))
]

-- In every round, whatever the random number, a thread that waits for the mutex waits for one to
-- seven processor pauses, or it sleeps for 1024 nanoseconds or more, and less than a millisecond
-- and six tenths.
pub back_off-bounded :
    (r k : ℕ)
    → ((n : ℕ) × ((back_off r (spinwait_at k) ≡ some (pauses n)) × (0 < n) × (n < 8)))
      ⊎ ((ns : ℕ) × ((back_off r (spinwait_at k) ≡ some (nanosleep ns))
            × (1024 ≤ ns)
            × (ns < 1572864)))
unfolding back_off
back_off-bounded r k =
    let range = spinwait_at-range k in
    let small = jitter-lt r (spinwait_at k) (omega (arith, range.0)) in
    let slep = spinwait_at k + jitter r (spinwait_at k) in
    let more : ltb 1 (spinwait_at k) ≡ true = lt→ltb 1 (spinwait_at k) (omega (arith, range.0)) in
    elim (Bool-cases (ltb (spinwait_at k + jitter r (spinwait_at k)) 1024)) [
      | inl short ↦
          let lt = ltb→lt (spinwait_at k + jitter r (spinwait_at k)) 1024 short in
          inl (slep / 128, (rw (more, short) refl, omega (arith, range.0), omega (arith, lt)))
      | inr long ↦ inr (slep, (rw (more, long) refl, ground arith, omega (arith, range.1, small)))
    ]
