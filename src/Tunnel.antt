-- ===== src/Tunnel.antt =====
-- The tunnel mode: python/modes/tunnel.py, python/modes/tunnel_geometry.py and
-- python/heuristics/artificial_filters.py.
mod Geometry
mod Mask
mod Mode
mod Trace
pub mod Windows
pub mod Distinct
pub mod Diggable
pub mod Safety
pub mod Torches
mod Examples
unfoldable pub use Geometry.*
unfoldable pub use Mask.*
unfoldable pub use Mode.*
