-- ===== src/Transport.antt =====
-- python/bridge_ws.py: how one command is sent to the bot over a WebSocket.
mod Send
pub mod Once
pub mod Conclusion
mod Examples
unfoldable pub use Send.*
