-- ===== src/Platform.antt =====
-- The host that the contracts run on: what they use of cosmwasm_std, cosmwasm_storage and cw20,
-- as interfaces with the documented laws. None of that code stands in the repository.
pub mod Errors
pub mod Messages
pub mod Storage
pub mod Decimals
pub mod Samples
pub mod Testing
