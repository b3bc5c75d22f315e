-- ===== src/Proxy.antt =====
-- src/proxy.rs and src/envelope.rs: decrypting a trusted request, forwarding it, streaming the
-- sealed response.
pub mod Types
pub mod Decrypt
pub mod Forward
pub mod Router
