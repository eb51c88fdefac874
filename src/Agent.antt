-- ===== src/Agent.antt =====
-- packages/agent/src.
pub mod Packets
pub mod Executor
pub mod Uplink
pub mod Discovery
pub mod Fleet
pub mod Processes
pub mod Controllers
pub mod Config
pub mod Runners
