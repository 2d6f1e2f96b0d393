-- ===== src/Signals.antt =====
-- src/libevsig/signals.c: handlers, restarts, and the sending of signals.
pub mod Names
mod Stacks
mod Laws
pub mod Ids
pub mod History
unfoldable pub use Stacks.*
pub use Laws.*
