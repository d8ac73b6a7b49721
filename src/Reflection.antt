-- ===== src/Reflection.antt =====
-- python/memory.py and python/services/reflection_store.py: what the agent learns from failures.
mod Entry
mod Store
mod Memory
pub mod Restore
pub mod Session
mod Examples
unfoldable pub use Entry.*
unfoldable pub use Store.*
unfoldable pub use Memory.*
