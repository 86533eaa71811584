-- ===== src/Staking.antt =====
-- The staking contract, contracts/staking/src and packages/shard_token/src/staking.rs.
pub mod Msg
pub mod Store
pub mod Rewards
pub mod Schedules
pub mod Contract
pub mod Queries
pub mod Governance
pub mod Moves
pub mod Invariant
pub mod Solvency
pub mod MockQuerier
pub mod Scenarios
pub mod Tests
