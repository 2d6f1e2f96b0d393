-- ===== src/Sigwrap.antt =====
-- src/libevsig/sigwrap.c, sigwrap_epoll.c, sigwrap_pthread.c and sigwrap_socket.c: system calls that
-- send a signal when they fail.
pub mod Names
mod Ops
mod Files
mod Epoll
mod Pthread
mod Socket
pub mod Laws
pub mod ReturnedValue
pub mod Success
pub mod Handlers
unfoldable pub use Ops.*
unfoldable pub use Files.*
unfoldable pub use Epoll.*
unfoldable pub use Pthread.*
unfoldable pub use Socket.*
