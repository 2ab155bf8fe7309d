-- ===== src/DeltaNeutralPosition/Lifecycle.antt =====
-- The life of a position, of contracts/delta_neutral_position/src/contract.rs: its phases, and the
-- changes of the storage that the contract may make.
pub mod Changes
pub mod Handlers
pub mod Phases
pub mod Reachable
pub mod Access
pub mod Delayed
pub mod Closure
