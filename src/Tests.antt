-- ===== src/Tests.antt =====
-- Runs and examples on small inputs.
pub mod Samples
pub mod Messages
pub mod Logs
pub mod Tables
pub mod Engines
pub mod Servers
mod Connections
pub mod Histories
pub mod Lives
mod Wires
mod Daemons
