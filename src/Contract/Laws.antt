-- ===== src/Contract/Laws.antt =====
-- The theorems on contract/contract.go and contract/state.go.
pub mod Move
pub mod Transfer
pub mod Branches
pub mod Supply
pub mod Actors
pub mod Loads
pub mod Calls
pub mod Ledger
pub mod Reading
pub mod Conserve
pub mod Flushed
pub mod Nonce
pub mod Writes
pub mod Stored
pub mod Growing
pub mod Replay
