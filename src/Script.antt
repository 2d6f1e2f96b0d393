-- ===== src/Script.antt =====
-- Code that uses the library: the macros of include/libevsig/signals.h and include/libevsig/unwind.h
-- in any nesting, from the set-up of a thread to its clean-up.
mod Syntax
mod Run
pub mod Frames
mod Opening
pub mod Fits
pub mod Sound
pub mod Settled
pub mod Ending
pub mod Whole
pub mod Finish
unfoldable pub use Syntax.*
unfoldable pub use Run.*
