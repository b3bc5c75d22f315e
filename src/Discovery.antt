-- ===== src/Discovery.antt =====
-- src/discovery: the providers of routes and the manager that merges their snapshots.
pub mod Equal
pub mod Labels
pub mod Docker
pub mod Kubernetes
pub mod Manager
