-- ===== src/Handler.antt =====
-- Package proxy/handler: how a request is forwarded.
pub mod Chunks
pub mod Copy
pub mod Port
pub mod Pipe
pub mod Serve
mod Tests
