-- ===== src/Actions.antt =====
-- python/actions/: the dispatcher that every command to the bot goes through, the validation of
-- arguments, and the commands.
mod Dispatch
mod Validate
mod Commands
mod Hybrid
pub mod Privacy
pub mod Scope
pub mod Fallback
pub mod Atomic
mod Examples
unfoldable pub use Dispatch.*
unfoldable pub use Validate.*
unfoldable pub use Commands.*
unfoldable pub use Hybrid.*
