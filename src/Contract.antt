-- ===== src/Contract.antt =====
-- contract/contract.go and contract/state.go: the actors, the token contract and its execution.
pub mod World
pub mod Cast
pub mod Token
pub mod Call
pub mod Execute
pub mod Laws
