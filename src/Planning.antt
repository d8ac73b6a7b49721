-- ===== src/Planning.antt =====
-- python/orchestrator/: how a plan of the language model is carried out, step by step, and what
-- happens when a step fails.
mod Effects
pub mod Directive
mod Steps
mod Handlers
mod Executor
mod Recovery
mod Run
mod Traces
mod StepTraces
mod RunTraces
pub mod Scopes
mod Results
pub mod Coherence
pub mod Ends
pub mod Halting
pub mod Chat
pub mod Replans
mod Examples
unfoldable pub use Effects.*
unfoldable pub use Directive.*
unfoldable pub use Steps.*
unfoldable pub use Handlers.*
unfoldable pub use Executor.*
unfoldable pub use Recovery.*
unfoldable pub use Run.*
