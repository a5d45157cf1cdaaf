-- ===== src/Types.antt =====
-- types/types.go and types/transaction_pool.go: the chain's data.
pub mod Hex
pub mod Address
pub mod Decimal
pub mod Value
pub mod Transaction
pub mod Block
pub mod Codec
pub mod Pool
pub mod TxMap
