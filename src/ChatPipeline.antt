-- ===== src/ChatPipeline.antt =====
-- python/chat_pipeline.py: what is done for one chat.
mod Task
pub mod Message
pub mod Speech
mod Examples
unfoldable pub use Task.*
