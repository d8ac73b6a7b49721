-- ===== src/Building.antt =====
-- python/services/building_service.py: the phases of a building job, its checkpoint, the plan of
-- missing materials and the batches of blocks. An exception that leaves a function is `none`.
mod Layout
mod Materials
mod Phases
pub mod Shortage
pub mod Reservation
pub mod Batches
pub mod Progress
pub mod Rollback
mod Examples
unfoldable pub use Layout.*
unfoldable pub use Materials.*
unfoldable pub use Phases.*
