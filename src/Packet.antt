-- ===== src/Packet.antt =====
-- Package packet: what the proxy reads from its clients.
pub mod Tls
pub mod Http
mod Tests
