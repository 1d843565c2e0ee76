-- ===== src/Effects.antt =====
-- Calls that read and change state and may fail: results, the state monad that keeps what was
-- written before an error, the environment that answers the calls, and a database transaction.
-- A value that a Go function returns beside a non-nil error is left out: gRPC drops the response
-- of a failed call.
mod Defs
pub mod Laws
pub mod Calm
pub mod Moves
pub mod Relates
unfoldable pub use Defs.*
