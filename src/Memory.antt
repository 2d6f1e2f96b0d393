-- ===== src/Memory.antt =====
-- The part of the C library's heap that src/libevsig uses: one block for each growing array.
mod Blocks
mod Layout
unfoldable pub use Blocks.*
pub use Layout.*
