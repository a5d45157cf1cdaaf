-- ===== src/Examples.antt =====
-- A concrete platform, on which the model runs, and the theorems at concrete inputs.
pub mod Toy
pub mod Plain
pub mod Supply
pub mod Hello
pub mod Contract
pub mod Offer
pub mod Notify
pub mod Network
pub mod Core
pub mod Lookup
pub mod Wire
pub mod Types
pub mod Chain
pub mod System
pub mod Money
pub mod Valid
pub mod Commands
pub mod Daemon
