-- ===== src/ActionGraph.antt =====
-- python/runtime/action_graph.py, action_graph_builder.py, move_handler.py and
-- building_plan_processor.py: how one step of a plan is carried out.
mod State
mod Skills
mod Move
mod Equip
mod Mining
mod Build
mod Graph
mod Routing
pub mod Course
mod Clear
pub mod Outcome
pub mod Rendezvous
pub mod Search
pub mod Pickaxes
pub mod Checkpoints
mod Examples
unfoldable pub use State.*
unfoldable pub use Skills.*
unfoldable pub use Move.*
unfoldable pub use Equip.*
unfoldable pub use Mining.*
unfoldable pub use Build.*
unfoldable pub use Graph.*
