-- ===== src/Server.antt =====
-- packages/server/src: the registry, the occupations, the tunnel to the agents and the relay.
pub mod Auth
pub mod Devices
pub mod Streams
pub mod Agents
pub mod Occupancy
pub mod Commands
pub mod Config
