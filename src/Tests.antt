-- ===== src/Tests.antt =====
-- The theorems at concrete values, by the part of the program that they are about.
pub mod Logs
pub mod Nodes
pub mod Data
pub mod Lounges
pub mod Forwarding
pub mod Connections
pub mod Utilities
pub mod Startup
