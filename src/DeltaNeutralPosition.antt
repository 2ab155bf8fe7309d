-- ===== src/DeltaNeutralPosition.antt =====
-- contracts/delta_neutral_position/src: the contract of one delta-neutral position.
pub mod Math
pub mod State
pub mod Dex
pub mod Spectrum
pub mod Util
pub mod Search
pub mod Open
pub mod Rebalance
pub mod Safety
pub mod Closing
pub mod Liquidity
pub mod Opening
pub mod Reinvest
pub mod Info
pub mod Contract
pub mod Lifecycle
pub mod Spending
pub mod Investing
pub mod Largest
pub mod Fees
pub mod Payments
pub mod Restoring
pub mod Targets
