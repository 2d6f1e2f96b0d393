-- ===== src/Send.antt =====
-- The part of src/libevsig/signals.c above the stacks: `_sig_send`, `_run_restart`, the catch-all
-- handler, `sig_init` and `sig_cleanup`, and the macros of include/libevsig/_signals.h.
mod Ops
pub mod Scopes
pub mod Ends
pub mod Backtrace
pub mod Restore
pub mod Spec
pub mod Refine
pub mod Available
pub mod Nested
pub mod Persistent
pub mod Assert
pub mod Cleanup
pub mod Unhandled
pub mod Setup
unfoldable pub use Ops.*
