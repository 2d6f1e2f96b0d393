-- ===== src/Mutex/Random.antt =====
-- The random numbers of src/libevsig/evsig_mutex.c.
use libevsig.Base.{
  ℕ, zero, suc, ◌*◌, ◌/◌, ◌%◌, ◌^◌, ◌<◌, ◌≡◌, ◌≢◌, refl, List, [], ◌∷◌, Result, ok, hang, ◌>>=◌,
  ◌==◌, ==-ne, if◌then◌else◌, arith,
}
use libevsig.Base.Bits.{bit_xor, bit_xor-eq_zero, bit_xor-lt}

abbrev fnv_offset : ℕ
fnv_offset = 14695981039346656037

abbrev fnv_prime : ℕ
fnv_prime = 1099511628211

-- The loop of `fnv_hash` over the bytes that are left.
unfoldable pub fnv_from : ℕ → List ℕ → ℕ
fnv_from result [] = result
fnv_from result (byte ∷ key) = fnv_from (bit_xor result byte * fnv_prime % 2 ^ 64) key

unfoldable pub fnv_hash : List ℕ → ℕ
unfolding fnv_from
fnv_hash key = fnv_from fnv_offset key

-- The `n` lowest bytes of a word, the lowest first.
unfoldable pub bytes : ℕ → ℕ → List ℕ
bytes zero word = []
bytes (suc n) word = word % 256 ∷ bytes n (word / 256)

-- `while (rand64_seed == 0)`, on fuel: the `k`-th reading of the clock is hashed.
unfoldable pub seeded : ℕ → (ℕ → ℕ) → ℕ → ℕ → Result ℕ
unfolding fnv_hash bytes
seeded zero time k seed = hang
seeded (suc n) time k seed =
    let again = seeded n time (suc k) (fnv_hash (bytes 8 (time k))) in
    if seed == 0 then again else ok seed

-- The three shifts, of which each goes into a word of 64 bits.
unfoldable pub shuffle : ℕ → ℕ
shuffle seed =
    let a = bit_xor seed (seed * 2 ^ 13 % 2 ^ 64) in
    let b = bit_xor a (a / 2 ^ 7) in bit_xor b (b * 2 ^ 17 % 2 ^ 64)

-- `rand64`: the number, which is the seed for the next.
unfoldable pub rand64 : ℕ → (ℕ → ℕ) → ℕ → Result ℕ
unfolding seeded shuffle
rand64 fuel time seed = do s ← seeded fuel time 0 seed; ok (shuffle s)

-- `n` calls, one after the other.
unfoldable pub rand64_calls : ℕ → ℕ → (ℕ → ℕ) → ℕ → Result ℕ
unfolding rand64
rand64_calls zero fuel time seed = ok seed
rand64_calls (suc n) fuel time seed = rand64 fuel time seed >>= rand64_calls n fuel time

-- A word that a shift cancels is 0.
left-ne : (x : ℕ) → x < 2 ^ 64 → x ≢ 0 → bit_xor x (x * 2 ^ 13 % 2 ^ 64) ≢ 0
left-ne x small ne e = let same = bit_xor-eq_zero x (x * 2 ^ 13 % 2 ^ 64) e in omega arith

right-ne : (x : ℕ) → x ≢ 0 → bit_xor x (x / 2 ^ 7) ≢ 0
right-ne x ne e = let same = bit_xor-eq_zero x (x / 2 ^ 7) e in omega arith

last-ne : (x : ℕ) → x < 2 ^ 64 → x ≢ 0 → bit_xor x (x * 2 ^ 17 % 2 ^ 64) ≢ 0
last-ne x small ne e = let same = bit_xor-eq_zero x (x * 2 ^ 17 % 2 ^ 64) e in omega arith

shuffle-ne_zero : (x : ℕ) → x < 2 ^ 64 → x ≢ 0 → (shuffle x ≢ 0) × (shuffle x < 2 ^ 64)
unfolding shuffle
shuffle-ne_zero x small ne =
    let a = bit_xor x (x * 2 ^ 13 % 2 ^ 64) in
    let a_small = bit_xor-lt 64 x (x * 2 ^ 13 % 2 ^ 64) small (omega arith) in
    let b = bit_xor a (a / 2 ^ 7) in
    let b_small = bit_xor-lt 64 a (a / 2 ^ 7) a_small (omega (arith, a_small)) in
    (
      last-ne b b_small (right-ne a (left-ne x small ne)),
      bit_xor-lt 64 b (b * 2 ^ 17 % 2 ^ 64) b_small (omega arith),
    )

-- Once the seed is a 64-bit word other than 0, each of any number of calls of `rand64` returns without
-- reading the clock, whatever it shows, and the number, the next seed, is such a word again.
pub rand64_calls-ne_zero :
    (n fuel : ℕ) (time : ℕ → ℕ) (seed : ℕ)
    → seed < 2 ^ 64
    → seed ≢ 0
    → (r : ℕ) × ((rand64_calls n (suc fuel) time seed ≡ ok r) × (r ≢ 0) × (r < 2 ^ 64))
unfolding rand64_calls rand64 seeded
rand64_calls-ne_zero zero fuel time seed small ne = (seed, (refl, ne, small))
rand64_calls-ne_zero (suc n) fuel time seed small ne =
    let next = shuffle-ne_zero seed small ne in
    let (r, rest) = rand64_calls-ne_zero n fuel time (shuffle seed) next.1 next.0 in
    (r, (rw (==-ne ne) rest.0, rest.1, rest.2))
