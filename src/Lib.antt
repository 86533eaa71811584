-- ===== src/Lib.antt =====
-- Verification of the shard-token contracts.
--
-- The repository has three CosmWasm contracts: a token, staking and an airdrop.
--
-- The token, contracts/token(erc20)/src/contract.rs with msg.rs, state.rs and error.rs, keeps
-- balances, allowances, its constants and the total supply as bytes under three prefixes of the
-- storage. Token/Msg has its messages and errors, Token/Store the readers and writers of the bytes
-- (`bytes_to_u128`, `read_u128`, `read_balance`, `read_allowance`, `write_allowance`), and
-- Token/Contract the entry points `instantiate`, `execute` and `query` and the handlers. Token/Ledger
-- is what the contract promises with no bytes; Token/Represents says when the bytes stand for a
-- ledger, Token/Refines follows every message in the ledger, Token/Supply follows the supply,
-- Token/Authority is about who may take from an account, Token/Answers about `query`, and
-- Token/Genesis about `instantiate`. Token/Scenarios has the unit tests at the end of contract.rs.
--
-- The staking contract, contracts/staking/src/contract.rs with state.rs and querier.rs and the
-- messages of packages/shard_token/src/staking.rs, keeps a configuration, a state and a bucket of
-- stakers. Staking/Msg has the messages and the stored records, Staking/Store the functions of
-- state.rs, Staking/Rewards `compute_reward`, `compute_staker_reward` and the changes of bond
-- amounts, Staking/Schedules `assert_new_schedules` and the loops of `migrate_staking`,
-- Staking/Contract the entry points and handlers, and Staking/Queries the queries. Staking/Moves is
-- about `receive_cw20`, `bond`, `unbond` and `withdraw`, Staking/Governance about `update_config` and
-- `migrate_staking`, Staking/Invariant about histories of calls, about bonding and about leaving,
-- Staking/Solvency about what histories pay against what the schedules give out, and
-- Staking/Queries/Quote about what a query promises. Staking/MockQuerier is mock_querier.rs and
-- Staking/Scenarios the unit tests of testing.rs. Staking and the tokens meet where a token contract
-- calls `receive_cw20` and where staking sends a transfer to a token contract. Payments is about the
-- transfers that staking and the airdrop answer with, executed by the token.
--
-- The airdrop, contracts/airdrop/src/contract.rs with state.rs and error.rs and the messages of
-- packages/shard_token/src/airdrop.rs, keeps an owner, a stage, a Merkle root for each stage and a
-- mark for each claim. Airdrop/Msg has the messages and errors, Airdrop/Store the functions of
-- state.rs, Airdrop/Contract the entry points, the handlers, the queries and the loop over a proof,
-- and Airdrop/Leaf the text that a leaf is the digest of. Airdrop/Claims is about `claim`,
-- Airdrop/Merkle about the loop and the tree whose root is registered, Airdrop/Allocation about
-- `claim` against such a tree, Airdrop/Stages about `register_merkle_root` and `update_config`, and
-- Airdrop/Invariant about the stages over histories of calls. Keccak and the decoder of hexadecimal
-- texts are parameters, of which the code relies on the 32 bytes alone: no hypothesis says that two
-- texts have different digests.
--
-- A call is a function from the storage to an outcome and a storage: a value, an error, or an abort.
-- The Rust code is built with overflow checks and aborts on panic, so an addition beyond 128 bits, a
-- subtraction below zero, an index out of range and an `unwrap` of nothing are aborts. Every loop is
-- structural recursion on the list that it runs over. Only the decimal digits of a number, in
-- Common/Texts, are on fuel: 39 digits, as a `u128` is
-- below 10 to the 39th. Platform has the host: areas of storage, addresses, encoders, queries and `Decimal` are
-- parameters with the laws that the code relies on, and Platform/Samples meets these with concrete
-- functions. Amounts are natural numbers with each `u128` bound written out where the code checks it.
--
-- The unit tests are runs of the model: Platform/Testing has `unwrap`, `assert_eq!` and the match on an
-- error, the definitions of Scenarios take what they use of `cosmwasm_std::testing` as a parameter,
-- and the modules Tests/Units run them on concrete functions.
--
-- Not modelled: the tests of the airdrop, which need the hash itself, the generators of schemas, gas,
-- and the encodings of JSON and of addresses, which are parameters.
pub mod Common
pub mod Platform
pub mod Token
pub mod Staking
pub mod Airdrop
pub mod Payments
