-- ===== src/Commands/Laws.antt =====
-- The theorems on the commands.
pub mod Daemon
pub mod Balance
pub mod Wallet
pub mod Addrs
