-- ===== src/Tests.antt =====
-- Concrete runs of the models.
pub mod Agent
pub mod Gateways
pub mod Server
pub mod Shared
pub mod Uplink
pub mod Supervisors
pub mod Configs
pub mod Runners
pub mod CommandLine
