-- ===== src/Agent.antt =====
-- crates/dlp-agent-core/src: the part of the agent that does not call the network.
pub mod Cache
pub mod Health
