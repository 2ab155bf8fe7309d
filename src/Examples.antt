-- ===== src/Examples.antt =====
-- Concrete runs: the theorems at inputs that meet their hypotheses, and tests of the definitions.
mod Data
mod Wire
mod Terra
mod CrossChain
mod Earn
mod Neutral
mod Decision
mod Swap
mod Ledger
mod Life
mod Invest
mod Restore
mod Pools
