-- ===== src/HttpClient.antt =====
-- python/bridge_client.py: requests to the HTTP bridge of the server.
mod Request
pub mod Ends
mod Examples
unfoldable pub use Request.*
