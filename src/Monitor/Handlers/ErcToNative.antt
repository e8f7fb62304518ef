-- ===== src/Monitor/Handlers/ErcToNative.antt =====
-- The handlers of an ERC-TO-NATIVE bridge. A message has no id of its own: its hash stands for it.
use tokenbridge_monitor.Base.{
  ℕ, ◌+◌, ◌*◌, Bool, true, false, none, some, List, [], ◌∷◌, ◌++◌, Bytes, ◌==◌, nat_eq, bytes_eq,
  any, find_by, slice, length, if◌then◌else◌,
}
use tokenbridge_monitor.Entity.{Address, Hash, Log, LogsFilter, foreign_to_home, home_to_foreign}
use tokenbridge_monitor.Config.{BridgeSideConfig, erc_to_native_token_addresses}
use tokenbridge_monitor.Exec.{Exec, Result, ok, panic, lift, ◌>>=◌, ◌>>◌}
use tokenbridge_monitor.Repo.Find.{find_logs}
use tokenbridge_monitor.Repo.Ensure.{
  ensure_sent_message, ensure_signed_message, ensure_executed_message,
}
use tokenbridge_monitor.Repo.Ensure.Upserts.{ensure_erc_to_native_message}
use tokenbridge_monitor.Monitor.Handlers.{
  BridgeEventHandler, EthTx, EventHandler, argument, as_address, as_big_int, as_bytes32,
  transaction_by_hash,
}

-- `new(big.Int).SetBytes(b)`: big endian.
unfoldable pub set_bytes : ℕ → Bytes → ℕ
set_bytes acc [] = acc
set_bytes acc (b ∷ bs) = set_bytes (acc * 256 + b) bs

-- The sender is on the list of the first token with the address of the log.
unfoldable pub is_blacklisted : BridgeSideConfig → Log → Address → Bool
is_blacklisted cfg log from =
    elim (find_by (λ t. t.address == log.address) cfg.erc_to_native_tokens) [
      | none ↦ false
      | some token ↦ any (λ addr. from == addr) token.blacklisted_senders
    ]

module _ (p : BridgeEventHandler) where
  -- The logs of one contract event in the transaction of `log`.
  abbrev same_transaction : Log → LogsFilter
  same_transaction log = record {
    chain_id = some log.chain_id;
    addresses = [];
    from_block = some log.block_number;
    to_block = some log.block_number;
    tx_hash = some log.transaction_hash;
    topic0 = [];
    topic1 = [];
    topic2 = [];
    topic3 = [];
    data_length = none;
  }

  abbrev message_bytes : Address → ℕ → Hash → Bytes
  message_bytes account value tx_hash = account ++ (p.geth.big_to_hash value ++ tx_hash)

  -- A transfer to the bridge that no request in the same transaction accounts for.
  record_transfer : Log → Address → ℕ → Exec Unit
  record_transfer log from value = do
    let msg = message_bytes from value log.transaction_hash
    let msg_hash = p.geth.keccak256_hash msg
    ensure_erc_to_native_message (record {
      bridge_id = p.bridge_id;
      direction = foreign_to_home;
      msg_hash = msg_hash;
      sender = from;
      receiver = from;
      value = value;
      raw_message = msg;
    })
    ensure_sent_message (record { log_id = log.id; bridge_id = p.bridge_id; msg_hash = msg_hash })

  abbrev transfer_unless : List Log → Log → Address → ℕ → Exec Unit
  transfer_unless [] log from value = record_transfer log from value
  transfer_unless (_ ∷ _) log from value = lift (ok tt)

  unfoldable pub handle_erc_to_native_transfer : EventHandler
  unfolding record_transfer is_blacklisted
  handle_erc_to_native_transfer log args = do
    from ← lift (as_address (argument "from" args))
    value ← lift (as_big_int (argument "value" args))
    if is_blacklisted p.foreign log from then lift (ok tt) else do
      logs ← find_logs (record (same_transaction log) {
        addresses = p.foreign.address ∷ [];
        topic0 = p.user_request_for_affirmation_signature ∷ [];
      })
      transfer_unless logs log from value

  -- The sender of the last transfer of the same amount; a log that the filter finds has a topic 1,
  -- and reading one that is absent is a panic.
  abbrev sender_of_transfer : Address → ℕ → List Log → Result Address
  sender_of_transfer sender value [] = ok sender
  sender_of_transfer sender value (l ∷ logs) =
      if value == set_bytes 0 l.payload
      then elim l.topic1 [
        | none ↦ panic
        | some t ↦ sender_of_transfer (p.geth.bytes_to_address t) value logs
      ]
      else sender_of_transfer sender value logs

  unfoldable pub handle_erc_to_native_user_request_for_affirmation : EventHandler
  unfolding set_bytes
  handle_erc_to_native_user_request_for_affirmation log args = do
    recipient ← lift (as_address (argument "recipient" args))
    value ← lift (as_big_int (argument "value" args))
    let msg = message_bytes recipient value log.transaction_hash
    let msg_hash = p.geth.keccak256_hash msg
    logs ← find_logs (record (same_transaction log) {
      addresses = erc_to_native_token_addresses p.foreign log.block_number log.block_number;
      topic0 = p.transfer_signature ∷ [];
      topic2 = p.geth.address_to_hash p.foreign.address ∷ [];
      data_length = some 32;
    })
    sender ← lift (sender_of_transfer recipient value logs)
    ensure_erc_to_native_message (record {
      bridge_id = p.bridge_id;
      direction = foreign_to_home;
      msg_hash = msg_hash;
      sender = sender;
      receiver = recipient;
      value = value;
      raw_message = msg;
    })
    ensure_sent_message (record { log_id = log.id; bridge_id = p.bridge_id; msg_hash = msg_hash })

  abbrev sender_of_tx : EthTx → Address → ℕ → Result Address
  sender_of_tx tx recipient value =
      if tx.value == value then p.home_client.sender tx else ok recipient

  unfoldable pub handle_erc_to_native_user_request_for_signature : EventHandler
  handle_erc_to_native_user_request_for_signature log args = do
    recipient ← lift (as_address (argument "recipient" args))
    value ← lift (as_big_int (argument "value" args))
    let msg = message_bytes recipient value log.transaction_hash ++ p.foreign.address
    let msg_hash = p.geth.keccak256_hash msg
    tx ← transaction_by_hash p log.transaction_hash
    sender ← lift (sender_of_tx tx recipient value)
    ensure_erc_to_native_message (record {
      bridge_id = p.bridge_id;
      direction = home_to_foreign;
      msg_hash = msg_hash;
      sender = sender;
      receiver = recipient;
      value = value;
      raw_message = msg;
    })
    ensure_sent_message (record { log_id = log.id; bridge_id = p.bridge_id; msg_hash = msg_hash })

  -- `tx.Data()[16:]`
  abbrev signed_part : Bytes → Result Bytes
  signed_part payload = elim (slice 16 (length payload) payload) [ none ↦ panic | some b ↦ ok b ]

  unfoldable pub handle_erc_to_native_signed_for_affirmation : EventHandler
  handle_erc_to_native_signed_for_affirmation log args = do
    validator ← lift (as_address (argument "signer" args))
    tx ← transaction_by_hash p log.transaction_hash
    msg ← lift (signed_part tx.payload)
    ensure_signed_message (record {
      log_id = log.id;
      bridge_id = p.bridge_id;
      msg_hash = p.geth.keccak256_hash msg;
      signer = validator;
    })

  unfoldable pub handle_erc_to_native_relayed_message : EventHandler
  handle_erc_to_native_relayed_message log args = do
    recipient ← lift (as_address (argument "recipient" args))
    value ← lift (as_big_int (argument "value" args))
    transaction_hash ← lift (as_bytes32 (argument "transactionHash" args))
    let msg = message_bytes recipient value transaction_hash ++ log.address
    ensure_executed_message (record {
      log_id = log.id;
      bridge_id = p.bridge_id;
      message_id = p.geth.keccak256_hash msg;
      status = true;
    })

  unfoldable pub handle_erc_to_native_affirmation_completed : EventHandler
  handle_erc_to_native_affirmation_completed log args = do
    recipient ← lift (as_address (argument "recipient" args))
    value ← lift (as_big_int (argument "value" args))
    transaction_hash ← lift (as_bytes32 (argument "transactionHash" args))
    ensure_executed_message (record {
      log_id = log.id;
      bridge_id = p.bridge_id;
      message_id = p.geth.keccak256_hash (message_bytes recipient value transaction_hash);
      status = true;
    })
