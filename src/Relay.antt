-- ===== src/Relay.antt =====
-- env/app/relay.py: relay chains.
pub mod Gate
pub mod Cascade
pub mod Run
