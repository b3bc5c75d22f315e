-- ===== src/Config.antt =====
-- src/config.rs: the layered configuration.
pub mod Kinds
pub mod Route
pub mod Settings
pub mod Layers
pub mod Tls
pub mod World
pub mod Tpm
pub mod Load
pub mod Dump
