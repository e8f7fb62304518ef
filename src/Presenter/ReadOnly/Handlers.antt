-- ===== src/Presenter/ReadOnly/Handlers.antt =====
-- No handler of the presenter writes to the database.
use tokenbridge_monitor.Base.{ℕ, ◌≡◌, String, Option, none, some, List, [], ◌∷◌, Bytes}
use tokenbridge_monitor.Entity.{Hash, Address, SignedMessage}
use tokenbridge_monitor.Config.{BridgeConfig, BridgeSideConfig}
use tokenbridge_monitor.Config.Init.{Config}
use tokenbridge_monitor.Exec.{Session, Result}
use tokenbridge_monitor.Exec.ReadOnly.{ReadOnly, ReadOnly-lift, ReadOnly-bind}
use tokenbridge_monitor.Repo.Find.{
  find_logs_by_ids, get_logs_cursor, get_block_timestamp, find_active_validators,
}
use tokenbridge_monitor.Repo.Reads.{
  find_sent_messages, find_signed_messages, get_latest_signed_message,
}
use tokenbridge_monitor.Presenter.Search.{FilterContext, get_logs, get_messages}
use tokenbridge_monitor.Presenter.Bridges.{
  find_active_validator_addresses, get_block_time_or_default, get_bridge_side_info, get_bridge_info,
  last_confirmation, get_validator_info, get_validator_infos, get_bridge_validators,
  get_pending_messages,
}
use tokenbridge_monitor.Presenter.Unsigned.{get_messages_with_missing_signatures}
use tokenbridge_monitor.Presenter.ReadOnly.Searching.{
  ReadOnly-find_pending, ReadOnly-get_logs, ReadOnly-get_messages, ReadOnly-get_tx_info,
  ReadOnly-if, handler_rules,
}

ReadOnly-get_block_time_or_default :
    (id : String) (n : ℕ) → ReadOnly (get_block_time_or_default id n)
unfolding get_block_time_or_default get_block_timestamp
ReadOnly-get_block_time_or_default id n = search handler_rules depth 12

ReadOnly-validators : (id id' : String) → ReadOnly (find_active_validator_addresses id id')
unfolding find_active_validator_addresses find_active_validators
ReadOnly-validators id id' = search handler_rules depth 12

ReadOnly-get_bridge_side_info :
    (id : String) (side : BridgeSideConfig) → ReadOnly (get_bridge_side_info id side)
unfolding get_bridge_side_info get_logs_cursor
ReadOnly-get_bridge_side_info id side =
    search (handler_rules, ReadOnly-get_block_time_or_default, ReadOnly-validators) depth 20

ReadOnly-get_bridge_info : (bridge : BridgeConfig) → ReadOnly (get_bridge_info bridge)
unfolding get_bridge_info
ReadOnly-get_bridge_info bridge = search (handler_rules, ReadOnly-get_bridge_side_info) depth 12

ReadOnly-get_pending_messages : (bridge : BridgeConfig) → ReadOnly (get_pending_messages bridge)
unfolding get_pending_messages
ReadOnly-get_pending_messages bridge = search (handler_rules, ReadOnly-find_pending) depth 12

module _ (cfg : Config) (bridge : BridgeConfig) where
  ReadOnly-last_confirmation :
      (o : Option SignedMessage) → ReadOnly (last_confirmation cfg bridge o)
  unfolding last_confirmation
  ReadOnly-last_confirmation none = ReadOnly-lift _
  ReadOnly-last_confirmation (some m) = search (handler_rules, ReadOnly-get_tx_info) depth 12

  ReadOnly-get_validator_info : (val : Address) → ReadOnly (get_validator_info cfg bridge val)
  unfolding get_validator_info get_latest_signed_message
  ReadOnly-get_validator_info val = search (handler_rules, ReadOnly-last_confirmation) depth 12

  ReadOnly-get_validator_infos :
      (marked validators : List Address)
      → ReadOnly (get_validator_infos cfg bridge marked validators)
  unfolding get_validator_infos
  ReadOnly-get_validator_infos marked [] = ReadOnly-lift _
  ReadOnly-get_validator_infos marked (val ∷ validators) =
      ReadOnly-if _ _ _ (ReadOnly-get_validator_infos marked validators) (
        ReadOnly-bind _ _ (ReadOnly-get_validator_info val) λ _.
          ReadOnly-bind _ _ (ReadOnly-get_validator_infos (val ∷ marked) validators)
            λ _. ReadOnly-lift _)

  ReadOnly-get_bridge_validators : ReadOnly (get_bridge_validators cfg bridge)
  unfolding get_bridge_validators
  ReadOnly-get_bridge_validators =
      search (handler_rules, ReadOnly-validators, ReadOnly-get_validator_infos) depth 12

module _ (cfg : Config) (text_hash : Bytes → Hash) (recover : Hash → Bytes → Result Address)
    (required : Result ℕ) (form : Result (List (Result (List (Hash × Bytes)))))
    (bridge : BridgeConfig) where
  ReadOnly-unsigned :
      ReadOnly (get_messages_with_missing_signatures cfg text_hash recover required form bridge)
  unfolding get_messages_with_missing_signatures find_signed_messages find_sent_messages
      find_logs_by_ids
  ReadOnly-unsigned = search (handler_rules, ReadOnly-validators, ReadOnly-find_pending) depth 30

-- Whatever calls fail, every handler of the presenter leaves each table as it was: the ones for
-- logs, for messages, for a bridge with its validators, and for pending and unsigned messages.
pub presenter-ReadOnly :
    (keccak256_text : String → Hash) (text_hash : Bytes → Hash)
    (recover : Hash → Bytes → Result Address) (required : Result ℕ)
    (form : Result (List (Result (List (Hash × Bytes))))) (cfg : Config) (bridge : BridgeConfig)
    (filter : FilterContext) (s : Session)
    → ((get_logs filter s).1.store ≡ s.store)
      × ((get_messages keccak256_text cfg filter s).1.store ≡ s.store)
      × ((get_bridge_info bridge s).1.store ≡ s.store)
      × ((get_bridge_validators cfg bridge s).1.store ≡ s.store)
      × ((get_pending_messages bridge s).1.store ≡ s.store)
      × ((get_messages_with_missing_signatures cfg text_hash recover required form bridge s).1.store
          ≡ s.store)
presenter-ReadOnly keccak256_text text_hash recover required form cfg bridge filter s = (
  (ReadOnly-get_logs filter).at s,
  (ReadOnly-get_messages keccak256_text cfg filter).at s,
  (ReadOnly-get_bridge_info bridge).at s,
  (ReadOnly-get_bridge_validators cfg bridge).at s,
  (ReadOnly-get_pending_messages bridge).at s,
  (ReadOnly-unsigned cfg text_hash recover required form bridge).at s,
)
