-- ===== src/Config/Types.antt =====
-- The records of config/config.go.
use tokenbridge_monitor.Base.{
  ℕ, String, Bool, Option, List, [], ◌∷◌, ◌++◌, ◌||◌, ltb, filter_by, map, not,
}
use tokenbridge_monitor.Entity.{Address}

pub record ChainConfig : Type 0 where
  pub chain_id : String
  pub explorer_tx_link_format : String
  pub safe_logs_request : Bool

pub record TokenConfig : Type 0 where
  pub address : Address
  pub start_block : ℕ
  pub end_block : ℕ
  pub blacklisted_senders : List Address

pub record BridgeSideConfig : Type 0 where
  pub chain_name : String
  pub chain : ChainConfig
  pub address : Address
  pub validator_contract_address : Address
  pub start_block : ℕ
  pub block_confirmations : ℕ
  pub max_block_range_size : ℕ
  pub whitelisted_senders : List Address
  pub erc_to_native_tokens : List TokenConfig

pub record BridgeAlertConfig : Type 0 where
  pub home_start_block : ℕ
  pub foreign_start_block : ℕ

-- `other` is any text but the two constants.
pub data BridgeMode : Type 0 where
  arbitrary_message erc_to_native : BridgeMode
  other : String → BridgeMode

-- A missing alert section is `none`.
pub record BridgeConfig : Type 0 where
  pub id : String
  pub bridge_mode : BridgeMode
  pub home : BridgeSideConfig
  pub foreign : BridgeSideConfig
  pub alerts : List (String × Option BridgeAlertConfig)

-- `toBlock < token.StartBlock || fromBlock > token.EndBlock`
abbrev pub out_of_range : ℕ → ℕ → TokenConfig → Bool
out_of_range from_block to_block token =
    ltb to_block token.start_block || ltb token.end_block from_block

unfoldable pub erc_to_native_token_addresses : BridgeSideConfig → ℕ → ℕ → List Address
erc_to_native_token_addresses cfg from_block to_block =
    map (λ t. t.address)
      (filter_by (λ t. not (out_of_range from_block to_block t)) cfg.erc_to_native_tokens)

unfoldable pub contract_addresses : BridgeSideConfig → ℕ → ℕ → List Address
unfolding erc_to_native_token_addresses
contract_addresses cfg from_block to_block =
    erc_to_native_token_addresses cfg from_block to_block
    ++ cfg.address ∷ cfg.validator_contract_address ∷ []
