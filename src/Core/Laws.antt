-- ===== src/Core/Laws.antt =====
-- The theorems on core/genesis.go and core/protocol.go.
pub mod Genesis
pub mod Money
pub mod Hello
pub mod Send
pub mod Spread
pub mod Round
pub mod System
pub mod Paying
pub mod Ledger
pub mod Boot
pub mod Supply
