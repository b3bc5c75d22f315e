-- ===== src/Ws.antt =====
-- src/ws.rs: attested WebSocket passthrough.
pub mod Frame
pub mod Bridge
pub mod Upgrade
