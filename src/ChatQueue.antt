-- ===== src/ChatQueue.antt =====
-- python/runtime/chat_queue.py: the bounded queue of chat tasks, the coroutines that put tasks
-- into it and the worker that takes them out. The event loop may switch wherever the code awaits,
-- so each stretch of code between two awaits is one step, and a run is any list of steps.
mod Defs
pub mod Invariant
pub mod Runs
mod Examples
unfoldable pub use Defs.*
