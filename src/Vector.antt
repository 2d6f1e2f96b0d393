-- ===== src/Vector.antt =====
-- The growing array that src/libevsig/signals.c and src/libevsig/unwind.c keep three times over: a
-- pointer, the room behind it and the count of entries in use, as thread-local variables.
mod Ops
mod Invariant
mod Search
mod Remove
pub use Ops.{Vector}
unfoldable pub use Ops.{
  allocate, grow, append, push_back, find_last, any_from, shift_down, rm_at, rm_last,
}
pub use Invariant.*
pub use Search.*
pub use Remove.*
