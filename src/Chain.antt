-- ===== src/Chain.antt =====
-- state/state_manager.go and state/miner.go: the head of the chain, validation and mining.
pub mod Manager
pub mod Validate
pub mod Valid
pub mod Process
pub mod Miner
pub mod Notify
pub mod Laws
