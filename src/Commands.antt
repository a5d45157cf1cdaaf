-- ===== src/Commands.antt =====
-- commands/all_commands_fixme.go and commands/lock.go, and the choice that main.go makes.
pub mod Wallet
pub mod Addrs
pub mod Swarm
pub mod Reply
pub mod Dag
pub mod Lock
pub mod Daemon
pub mod Entry
pub mod Laws
