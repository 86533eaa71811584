-- ===== src/Platform/Errors.antt =====
-- `cosmwasm_std::StdError`, as far as the contracts make it or pass it on.
use shard_token.Common.{String}

pub data StdError : Type 0 where
  generic_err : String → StdError
  not_found : StdError
  -- the result of a `checked_sub` below zero
  overflow : StdError
  -- what the host's address, query and encoding services answer
  host_err : String → StdError
