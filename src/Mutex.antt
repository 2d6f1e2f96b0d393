-- ===== src/Mutex.antt =====
-- src/libevsig/evsig_mutex.c, as one thread sees it: a word that is 0 when free and 1 when held.
pub mod Backoff
pub mod Random
pub mod Contention
pub mod Waiting
pub mod Exclusion
use libevsig.Base.{ℕ, Result, ok, hang, ◌==◌, if◌then◌else◌}

-- `evsig_lock` by a thread that nobody will unlock for spins for ever on a mutex that is held.
unfoldable pub evsig_lock : ℕ → Result ℕ
evsig_lock m = if m == 0 then ok 1 else hang

-- `evsig_await_unlock`, which waits for the mutex to be free and does not take it.
unfoldable pub await_unlock : ℕ → Result ℕ
await_unlock m = if m == 0 then ok 0 else hang

unfoldable pub evsig_unlock : ℕ → ℕ
evsig_unlock m = 0

unfoldable pub evsig_ensure_locked : ℕ → ℕ
evsig_ensure_locked m = 1
