-- ===== src/Shutdown/Parallel.antt =====
-- Several threads at one shutdown signal: src/libevsig/thread_shutdown_signal.c, a statement at a time.
mod Moves
mod Sections
mod Steps
pub mod Contract
mod Runs
pub mod Statements
mod Finishing
pub mod Flag
pub mod Polling
pub mod Invariant
pub mod Survival
pub mod Serial
pub mod Progress
unfoldable pub use Moves.*
unfoldable pub use Sections.*
unfoldable pub use Steps.*
