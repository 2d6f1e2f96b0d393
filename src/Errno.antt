-- ===== src/Errno.antt =====
-- src/libevsig/errno_signals.c: from error numbers to signal types and messages.
pub mod Names
mod Signals
mod Codes
mod Cases
mod Convert
pub mod Labels
pub mod Switch
pub mod Message
pub use Names.{Errno}
unfoldable pub use Signals.*
unfoldable pub use Codes.*
unfoldable pub use Cases.*
unfoldable pub use Convert.*
