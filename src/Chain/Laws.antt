-- ===== src/Chain/Laws.antt =====
-- The theorems on state/state_manager.go and state/miner.go.
pub mod Accept
pub mod Head
pub mod Learns
pub mod Process
pub mod Walk
pub mod Advance
pub mod Valid
pub mod Refines
pub mod Money
pub mod Funded
pub mod Replaying
pub mod Solvent
pub mod Solvency
pub mod Stocked
pub mod Taken
pub mod Order
pub mod Notify
pub mod Mining
pub mod Offer
pub mod Poison
pub mod Batch
pub mod Height
