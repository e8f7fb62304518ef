-- ===== src/Monitor/Handlers/Amb.antt =====
-- The handlers of an AMB bridge: messages and information requests from sending to execution.
use tokenbridge_monitor.Base.{◌%◌, ◌++◌, uint_mod}
use tokenbridge_monitor.Entity.{Direction, foreign_to_home, home_to_foreign}
use tokenbridge_monitor.Exec.{lift, ◌>>=◌, ◌>>◌}
use tokenbridge_monitor.Repo.Ensure.{
  ensure_message, ensure_sent_message, ensure_signed_message, ensure_collected_message,
  ensure_executed_message, ensure_information_request, ensure_sent_information_request,
  ensure_signed_information_request, ensure_executed_information_request,
}
use tokenbridge_monitor.Monitor.Decoders.{
  unmarshal_message, unmarshal_legacy_message, unmarshal_confirm_information_result,
}
use tokenbridge_monitor.Monitor.Handlers.{
  BridgeEventHandler, EventHandler, argument, as_address, as_big_int, as_bytes, as_bytes32, as_bool,
  transaction_by_hash,
}

module _ (p : BridgeEventHandler) where
  handle_user_request : Direction → EventHandler
  handle_user_request direction log args = do
    encoded ← lift (as_bytes (argument "encodedData" args))
    message ← lift (unmarshal_message p.geth p.bridge_id direction encoded)
    ensure_message message
    ensure_sent_message
        (record { log_id = log.id; bridge_id = p.bridge_id; msg_hash = message.msg_hash })

  unfoldable pub handle_user_request_for_affirmation : EventHandler
  unfolding handle_user_request
  handle_user_request_for_affirmation = handle_user_request foreign_to_home

  unfoldable pub handle_user_request_for_signature : EventHandler
  unfolding handle_user_request
  handle_user_request_for_signature = handle_user_request home_to_foreign

  handle_legacy_user_request : Direction → EventHandler
  handle_legacy_user_request direction log args = do
    encoded ← lift (as_bytes (argument "encodedData" args))
    message ←
        lift
          (unmarshal_legacy_message p.geth p.bridge_id direction (log.transaction_hash ++ encoded))
    ensure_message message
    ensure_sent_message
        (record { log_id = log.id; bridge_id = p.bridge_id; msg_hash = message.msg_hash })

  unfoldable pub handle_legacy_user_request_for_affirmation : EventHandler
  unfolding handle_legacy_user_request
  handle_legacy_user_request_for_affirmation = handle_legacy_user_request foreign_to_home

  unfoldable pub handle_legacy_user_request_for_signature : EventHandler
  unfolding handle_legacy_user_request
  handle_legacy_user_request_for_signature = handle_legacy_user_request home_to_foreign

  unfoldable pub handle_signed_for_user_request : EventHandler
  handle_signed_for_user_request log args = do
    msg_hash ← lift (as_bytes32 (argument "messageHash" args))
    validator ← lift (as_address (argument "signer" args))
    ensure_signed_message (record {
      log_id = log.id;
      bridge_id = p.bridge_id;
      msg_hash = msg_hash;
      signer = validator;
    })

  handle_executed_message : EventHandler
  handle_executed_message log args = do
    message_id ← lift (as_bytes32 (argument "messageId" args))
    status ← lift (as_bool (argument "status" args))
    ensure_executed_message (record {
      log_id = log.id;
      bridge_id = p.bridge_id;
      message_id = message_id;
      status = status;
    })

  unfoldable pub handle_relayed_message : EventHandler
  unfolding handle_executed_message
  handle_relayed_message = handle_executed_message

  unfoldable pub handle_affirmation_completed : EventHandler
  unfolding handle_executed_message
  handle_affirmation_completed = handle_executed_message

  -- `uint(numSignatures.Uint64())` keeps the low 64 bits.
  unfoldable pub handle_collected_signatures : EventHandler
  handle_collected_signatures log args = do
    msg_hash ← lift (as_bytes32 (argument "messageHash" args))
    relayer ← lift (as_address (argument "authorityResponsibleForRelay" args))
    num_signatures ← lift (as_big_int (argument "NumberOfCollectedSignatures" args))
    ensure_collected_message (record {
      log_id = log.id;
      bridge_id = p.bridge_id;
      msg_hash = msg_hash;
      responsible_signer = relayer;
      num_signatures = num_signatures % uint_mod;
    })

  unfoldable pub handle_user_request_for_information : EventHandler
  handle_user_request_for_information log args = do
    message_id ← lift (as_bytes32 (argument "messageId" args))
    request_selector ← lift (as_bytes32 (argument "requestSelector" args))
    sender ← lift (as_address (argument "sender" args))
    request_data ← lift (as_bytes (argument "data" args))
    ensure_information_request (record {
      bridge_id = p.bridge_id;
      message_id = message_id;
      direction = home_to_foreign;
      request_selector = request_selector;
      sender = sender;
      executor = sender;
      payload = request_data;
    })
    ensure_sent_information_request
        (record { log_id = log.id; bridge_id = p.bridge_id; message_id = message_id })

  unfoldable pub handle_signed_for_information : EventHandler
  handle_signed_for_information log args = do
    message_id ← lift (as_bytes32 (argument "messageId" args))
    validator ← lift (as_address (argument "signer" args))
    tx ← transaction_by_hash p log.transaction_hash
    result ← lift (unmarshal_confirm_information_result tx.payload)
    ensure_signed_information_request (record {
      log_id = log.id;
      bridge_id = p.bridge_id;
      message_id = message_id;
      payload = result;
      signer = validator;
    })

  unfoldable pub handle_information_retrieved : EventHandler
  handle_information_retrieved log args = do
    message_id ← lift (as_bytes32 (argument "messageId" args))
    status ← lift (as_bool (argument "status" args))
    callback_status ← lift (as_bool (argument "callbackStatus" args))
    tx ← transaction_by_hash p log.transaction_hash
    result ← lift (unmarshal_confirm_information_result tx.payload)
    ensure_executed_information_request (record {
      log_id = log.id;
      bridge_id = p.bridge_id;
      message_id = message_id;
      status = status;
      callback_status = callback_status;
      payload = result;
    })
