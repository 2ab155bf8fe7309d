-- ===== src/TerraManager.antt =====
-- The contract terra_contracts/contracts/terra_manager: positions held by Terra addresses, Terra
-- strategies, and the instructions and tokens that cross chains.
pub mod State
pub mod TerraChain
pub mod CrossChain
pub mod Contract
pub mod Access
pub mod Effects
pub mod Positions
pub mod Queries
pub mod Settings
pub mod Replay
pub mod Fees
pub mod Arrivals
