-- ===== src/DeltaNeutralManager.antt =====
-- contracts/delta_neutral_position_manager/src: the manager of the delta-neutral strategy, which
-- keeps a contract for each position.
pub mod State
pub mod Settings
pub mod Contract
pub mod Opening
pub mod Access
pub mod Rebalance
pub mod Queries
pub mod Decision
