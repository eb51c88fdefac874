-- ===== src/Shared.antt =====
-- packages/shared/src: what the agent, the server and the web console share.
pub mod Ids
pub mod Types
pub mod Messages
pub mod Frames
