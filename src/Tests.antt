-- ===== src/Tests.antt =====
-- Runs of the model on concrete inputs, one module for each part of the program.
pub mod Config
pub mod Attestation
pub mod Proxy
pub mod Ws
pub mod Discovery
pub mod Cli
pub mod Acme
pub mod Startup
