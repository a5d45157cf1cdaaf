-- ===== src/Core.antt =====
-- core/genesis.go, core/node.go and core/protocol.go.
pub mod Genesis
pub mod Boot
pub mod Node
pub mod Peer
pub mod Send
pub mod System
pub mod Laws
