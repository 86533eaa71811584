-- ===== src/Airdrop.antt =====
-- The airdrop contract, contracts/airdrop/src and packages/shard_token/src/airdrop.rs.
pub mod Msg
pub mod Store
pub mod Leaf
pub mod Contract
pub mod Merkle
pub mod Claims
pub mod Allocation
pub mod Stages
pub mod Invariant
pub mod Tests
