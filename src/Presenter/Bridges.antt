-- ===== src/Presenter/Bridges.antt =====
-- presenter/presenter.go: what is shown of a bridge, namely its progress on both sides, its
-- validators, and the messages that wait for their execution.
pub mod Validators
use tokenbridge_monitor.Base.{
  ℕ, String, Bool, true, false, Option, none, some, List, [], ◌∷◌, ◌++◌, map, any, ◌==◌, nat_eq,
  bytes_eq, if◌then◌else◌,
}
use tokenbridge_monitor.Entity.{Address, BlockTimestamp, SignedMessage}
use tokenbridge_monitor.Config.{BridgeConfig, BridgeSideConfig}
use tokenbridge_monitor.Config.Init.{Config}
use tokenbridge_monitor.Exec.{ok, Exec, lift, ◌>>=◌}
use tokenbridge_monitor.Repo.Find.{get_logs_cursor, get_block_timestamp, find_active_validators}
use tokenbridge_monitor.Repo.Reads.{find_pending_messages, get_latest_signed_message}
use tokenbridge_monitor.Presenter.Types.{
  BridgeSideInfo, BridgeInfo, ValidatorInfo, ValidatorsInfo, TxInfo, MessageView,
  new_bridge_message_info,
}
use tokenbridge_monitor.Presenter.Events.{optional, get_tx_info}

unfoldable pub find_active_validator_addresses : String → String → Exec (List Address)
find_active_validator_addresses bridge_id chain_id = do
  validators ← find_active_validators bridge_id chain_id
  lift (ok (map (λ v. v.address) validators))

abbrev time_of : Option BlockTimestamp → Option ℕ
time_of none = none
time_of (some bt) = some bt.timestamp

unfoldable pub get_block_time_or_default : String → ℕ → Exec (Option ℕ)
unfolding optional
get_block_time_or_default chain_id block_number = do
  bt ← optional (get_block_timestamp chain_id block_number)
  lift (ok (time_of bt))

unfoldable pub get_bridge_side_info : String → BridgeSideConfig → Exec BridgeSideInfo
unfolding get_block_time_or_default find_active_validator_addresses
get_bridge_side_info bridge_id cfg = do
  cursor ← get_logs_cursor cfg.chain.chain_id cfg.address
  fetched_time ← get_block_time_or_default cfg.chain.chain_id cursor.last_fetched_block
  processed_time ←
      if cursor.last_fetched_block == cursor.last_processed_block
      then lift (ok fetched_time)
      else get_block_time_or_default cfg.chain.chain_id cursor.last_processed_block
  validators ← find_active_validator_addresses bridge_id cfg.chain.chain_id
  lift (
      ok (record {
        chain = cfg.chain_name;
        chain_id = cfg.chain.chain_id;
        bridge_address = cfg.address;
        last_fetched_block = cursor.last_fetched_block;
        last_fetch_block_time = fetched_time;
        last_processed_block = cursor.last_processed_block;
        last_processed_block_time = processed_time;
        validators = validators;
      }))

unfoldable pub get_bridge_info : BridgeConfig → Exec BridgeInfo
unfolding get_bridge_side_info
get_bridge_info cfg = do
  home ← get_bridge_side_info cfg.id cfg.home
  foreign ← get_bridge_side_info cfg.id cfg.foreign
  lift (ok (record { bridge_id = cfg.id; mode = cfg.bridge_mode; home = home; foreign = foreign }))

abbrev pub seen : List Address → Address → Bool
seen addresses a = any (λ b. b == a) addresses

module _ (cfg : Config) (bridge : BridgeConfig) where
  unfoldable pub last_confirmation : Option SignedMessage → Exec (Option TxInfo)
  unfolding get_tx_info
  last_confirmation none = lift (ok none)
  last_confirmation (some confirmation) = do
    tx_info ← get_tx_info cfg confirmation.log_id
    lift (ok (some tx_info))

  unfoldable pub get_validator_info : Address → Exec ValidatorInfo
  unfolding optional last_confirmation
  get_validator_info val = do
    confirmation ← optional (get_latest_signed_message bridge.id bridge.home.chain.chain_id val)
    tx_info ← last_confirmation confirmation
    lift (ok (record { address = val; last_confirmation = tx_info }))

  -- Each address once, at its first place; `marked` are those that came before.
  unfoldable pub get_validator_infos : List Address → List Address → Exec (List ValidatorInfo)
  unfolding get_validator_info
  get_validator_infos marked [] = lift (ok [])
  get_validator_infos marked (val ∷ validators) =
      if seen marked val then get_validator_infos marked validators else (do
        info ← get_validator_info val
        infos ← get_validator_infos (val ∷ marked) validators
        lift (ok (info ∷ infos)))

  -- Both lists are asked for by the chain id of the home side.
  unfoldable pub get_bridge_validators : Exec ValidatorsInfo
  unfolding find_active_validator_addresses get_validator_infos
  get_bridge_validators = do
    home_validators ← find_active_validator_addresses bridge.id bridge.home.chain.chain_id
    foreign_validators ← find_active_validator_addresses bridge.id bridge.home.chain.chain_id
    infos ← get_validator_infos [] (home_validators ++ foreign_validators)
    lift (ok (record { bridge_id = bridge.id; mode = bridge.bridge_mode; validators = infos }))

unfoldable pub get_pending_messages : BridgeConfig → Exec (List MessageView)
get_pending_messages cfg = do
  msgs ← find_pending_messages cfg.id cfg.bridge_mode
  lift (ok (map new_bridge_message_info msgs))
