-- ===== src/Shutdown.antt =====
-- src/libevsig/thread_shutdown_signal.c: the list of threads to wait for and the list of callbacks.
mod Compact
mod Ops
pub mod Rounds
pub mod Shift
pub mod Lists
pub mod Threads
mod Sending
pub mod Callbacks
pub mod Aftermath
pub mod Process
pub mod Handle
pub mod Parallel
unfoldable pub use Compact.*
unfoldable pub use Sending.*
unfoldable pub use Ops.*
