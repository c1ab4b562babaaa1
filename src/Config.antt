-- ===== src/Config.antt =====
-- config/index_config.go, config/common_configs.go: the configuration records. `throttling` is a
-- float64 in the source; here it is an integer number of a fixed small unit, since the code asks
-- only for its sign and whether it is 0.
pub mod FilterFile
pub mod Validate
use cosmos_indexer.Prelude.{String, Bool}
use cosmos_indexer.Prelude.Int.{ℤ}

pub record IndexBase : Type 0 where
  pub throttling : ℤ
  pub reindex_message_type : String
  pub reattempt_failed_blocks : Bool
  pub start_block : ℤ
  pub end_block : ℤ
  pub block_input_file : String
  pub re_index : Bool
  pub transaction_indexing_enabled : Bool
  pub exit_when_caught_up : Bool
  pub filter_file : String
