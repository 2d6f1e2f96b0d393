-- ===== src/Unwind.antt =====
-- src/libevsig/unwind.c: the stack of unwind actions, and the handler of system signals.
mod Ops
mod Spec
pub mod Refine
pub mod Dispatch
pub mod Drain
pub mod Print
pub mod Install
unfoldable pub use Ops.*
unfoldable pub use Spec.*
