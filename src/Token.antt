-- ===== src/Token.antt =====
-- The token contract, contracts/token(erc20)/src.
pub mod Msg
pub mod Store
pub mod Contract
pub mod Ledger
pub mod Represents
pub mod Refines
pub mod Supply
pub mod Authority
pub mod Answers
pub mod Covered
pub mod Scenarios
pub mod Genesis
pub mod Tests
