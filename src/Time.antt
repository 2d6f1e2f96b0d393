-- ===== src/Time.antt =====
-- include/libevsig/util.h: readings of the clock, and a sleep. What the system answers is an argument.
use libevsig.Base.{
  ℕ, ◌+◌, ◌*◌, ◌/◌, ◌%◌, ◌^◌, ◌<◌, ◌≡◌, ap, ◌∙◌, Option, none, some, Result, ok, exit, ◌>>=◌, arith,
}

-- `struct timeval`
pub record Timeval : Type 0 where
  pub tv_sec : ℕ
  pub tv_usec : ℕ

-- `struct timespec`
pub record Timespec : Type 0 where
  pub tv_sec : ℕ
  pub tv_nsec : ℕ

-- What `evsig_sleep_ns` asks `nanosleep` for.
unfoldable pub evsig_sleep_ns : ℕ → Timespec
evsig_sleep_ns nanoseconds = record {
  tv_sec = nanoseconds / 1000000000;
  tv_nsec = nanoseconds % 1000000000;
}

-- The answer of `time`, in a `uint64_t`.
unfoldable pub evsig_time_s : ℕ → ℕ
evsig_time_s now = now % 2 ^ 64

-- `none` for a `gettimeofday` that fails.
unfoldable pub evsig_time_us : Option Timeval → Result ℕ
evsig_time_us none = exit 1
evsig_time_us (some tv) = ok ((tv.tv_sec * 1000000 + tv.tv_usec) % 2 ^ 64)

unfoldable pub evsig_time_ms : Option Timeval → Result ℕ
unfolding evsig_time_us
evsig_time_ms answer = evsig_time_us answer >>= λ us. ok (us / 1000)

-- `none` for a `clock_gettime` that fails.
unfoldable pub evsig_time_ns : Option Timespec → Result ℕ
evsig_time_ns none = exit 1
evsig_time_ns (some ts) = ok ((ts.tv_sec * 1000000000 + ts.tv_nsec) % 2 ^ 64)

-- A sleep asks for exactly the nanoseconds given, in the range that `nanosleep` takes, and a clock
-- that shows this time reads as the same nanoseconds.
pub evsig_sleep_ns-evsig_time_ns :
    (n : ℕ)
    → n < 2 ^ 64
    → ((evsig_sleep_ns n).tv_nsec < 1000000000) × (evsig_time_ns (some (evsig_sleep_ns n)) ≡ ok n)
unfolding evsig_sleep_ns evsig_time_ns
evsig_sleep_ns-evsig_time_ns n small = (
  omega arith,
  ap ok (
      let whole : n / 1000000000 * 1000000000 + n % 1000000000 ≡ n = omega arith in
      omega (arith, whole, small)),
)

-- While the microseconds fit in 64 bits, `evsig_time_ms` gives the milliseconds of the clock, rounded
-- down.
pub evsig_time_ms-floor :
    (sec usec : ℕ)
    → usec < 1000000
    → sec * 1000000 + usec < 2 ^ 64
    → evsig_time_ms (some (record { tv_sec = sec; tv_usec = usec })) ≡ ok (sec * 1000 + usec / 1000)
unfolding evsig_time_ms evsig_time_us
evsig_time_ms-floor sec usec part small = ap ok (
    let whole : (sec * 1000000 + usec) % 2 ^ 64 ≡ sec * 1000000 + usec = omega (arith, small) in
    ap (λ us. us / 1000) whole ∙ omega arith)
