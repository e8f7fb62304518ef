-- ===== src/Presenter/Unsigned.antt =====
-- presenter/presenter.go: the messages that wait for signatures. What the node, go-ethereum and
-- net/http answer are parameters.
pub mod Shown
pub mod Outgoing
pub mod Missing
use tokenbridge_monitor.Base.{
  ℕ, ◌+◌, ◌-◌, ◌%◌, zero, suc, String, Bool, true, false, not, ◌&&◌, Option, none, some, List, [],
  ◌∷◌, ◌++◌, map, any, ◌==◌, nat_eq, bytes_eq, Bytes, length, filter_by, find_by, ltb, leb,
  get_elem?, take, drop, if◌then◌else◌,
}
use tokenbridge_monitor.Entity.{
  Address, Hash, Direction, home_to_foreign, foreign_to_home, SignedMessage, SentMessage, Log,
}
use tokenbridge_monitor.Config.{BridgeConfig}
use tokenbridge_monitor.Config.Init.{Config, get_chain_config}
use tokenbridge_monitor.Exec.{Result, ok, err, panic, Exec, lift, ◌>>=◌}
use tokenbridge_monitor.Repo.Find.{find_logs_by_ids}
use tokenbridge_monitor.Repo.Reads.{
  BridgeMessage, get_msg_hash, get_direction, get_raw_message, find_pending_messages,
  find_signed_messages, find_sent_messages,
}
use tokenbridge_monitor.Presenter.Types.{
  TxLink, UnsignedMessageInfo, UnsignedMessagesInfo, new_bridge_message_info,
}
use tokenbridge_monitor.Presenter.Events.{format_tx_link}
use tokenbridge_monitor.Presenter.Bridges.{find_active_validator_addresses, seen}
use tokenbridge_monitor.Presenter.Signers.{
  set_key, get_key, same_hash, SignersMap, make_signers_map, has_signed, parse_files,
}

abbrev pub is_home_to_foreign : Direction → Bool
is_home_to_foreign home_to_foreign = true
is_home_to_foreign foreign_to_home = false

abbrev zeros : ℕ → Hash
zeros zero = []
zeros (suc n) = 0 ∷ zeros n

-- The array is made for all pending messages; the places of the others keep the zero hash.
abbrev pub zero_hash : Hash
zero_hash = zeros 32

abbrev pub pending_hash : BridgeMessage → Hash
pending_hash msg = if is_home_to_foreign (get_direction msg) then get_msg_hash msg else zero_hash

abbrev pub pending_by_hash :
    List BridgeMessage → List (Hash × BridgeMessage) → List (Hash × BridgeMessage)
pending_by_hash [] m = m
pending_by_hash (msg ∷ msgs) m = pending_by_hash msgs (
    if is_home_to_foreign (get_direction msg)
    then set_key same_hash (get_msg_hash msg) msg m
    else m)

abbrev pub raw_by_hash : List (Hash × BridgeMessage) → List (Hash × Bytes)
raw_by_hash m = map (λ (e : Hash × BridgeMessage). (e.0, get_raw_message e.1)) m

abbrev same_id : ℕ → ℕ → Bool
same_id a b = a == b

abbrev pub hash_by_log_id : List SentMessage → List (ℕ × Hash) → List (ℕ × Hash)
hash_by_log_id [] m = m
hash_by_log_id (sent ∷ sents) m = hash_by_log_id sents (set_key same_id sent.log_id sent.msg_hash m)

abbrev or_zero : Option Hash → Hash
or_zero none = zero_hash
or_zero (some h) = h

abbrev pub sent_tx_links :
    Config → List (ℕ × Hash) → List Log → List (Hash × TxLink) → List (Hash × TxLink)
sent_tx_links cfg hashes [] m = m
sent_tx_links cfg hashes (log ∷ logs) m = sent_tx_links cfg hashes logs (
    set_key same_hash (or_zero (get_key same_id log.id hashes))
      (format_tx_link (get_chain_config cfg log.chain_id) log.transaction_hash) m)

-- The messages with too few signatures of active validators.
module _ (validators : List Address) (required_signatures : ℕ) (signers_map : SignersMap)
    (links : List (Hash × TxLink)) where
  abbrev unsigned_info : Hash → BridgeMessage → UnsignedMessageInfo
  unsigned_info h msg = record {
    view = new_bridge_message_info msg;
    link = get_key same_hash h links;
    signers = filter_by (has_signed signers_map h) validators;
    missing_signers = filter_by (λ v. not (has_signed signers_map h v)) validators;
  }

  abbrev pub unsigned_messages_of : List (Hash × BridgeMessage) → List UnsignedMessageInfo
  unsigned_messages_of [] = []
  unsigned_messages_of ((h, msg) ∷ msgs) =
      let info = unsigned_info h msg in
      let rest = unsigned_messages_of msgs in
      if ltb (length info.signers) required_signatures then info ∷ rest else rest

-- `required` is what the contract on the foreign chain answers, `form` the files of the request.
module _ (cfg : Config) (text_hash : Bytes → Hash) (recover : Hash → Bytes → Result Address)
    (required : Result ℕ) (form : Result (List (Result (List (Hash × Bytes))))) where
  unfoldable pub get_messages_with_missing_signatures : BridgeConfig → Exec UnsignedMessagesInfo
  unfolding find_active_validator_addresses parse_files make_signers_map
  get_messages_with_missing_signatures bridge = do
    required_signatures ← lift required
    validators ← find_active_validator_addresses bridge.id bridge.foreign.chain.chain_id
    msgs ← find_pending_messages bridge.id bridge.bridge_mode
    signatures ← find_signed_messages bridge.id (map pending_hash msgs)
    sent_msgs ← find_sent_messages bridge.id (map pending_hash msgs)
    logs ← find_logs_by_ids (map (λ m. m.log_id) sent_msgs)
    files ← lift form
    manual ← lift (parse_files text_hash recover (raw_by_hash (pending_by_hash msgs [])) files [])
    signers_map ← lift (make_signers_map (map pending_hash msgs) signatures manual)
    let unsigned =
        unsigned_messages_of validators required_signatures signers_map
          (sent_tx_links cfg (hash_by_log_id sent_msgs []) logs []) (pending_by_hash msgs [])
    lift (
        ok (record {
          required_signatures = required_signatures;
          active_validators = validators;
          total_pending_messages = length (map pending_hash msgs);
          total_unsigned_messages = length unsigned;
          unsigned_messages = unsigned;
        }))
