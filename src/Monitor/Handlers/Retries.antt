-- ===== src/Monitor/Handlers/Retries.antt =====
-- The handlers that only insert rows may be repeated from their start.
use tokenbridge_monitor.Entity.{Log, Hash}
use tokenbridge_monitor.Exec.Retryable.{Retryable, Retryable-lift, Retryable-bind, Retryable-if}
use tokenbridge_monitor.Exec.Calls.{Retryable-query}
use tokenbridge_monitor.Repo.Ensure.Retries.{
  Retryable-ensure_message, Retryable-ensure_sent_message, Retryable-ensure_signed_message,
  Retryable-ensure_collected_message, Retryable-ensure_executed_message,
  Retryable-ensure_information_request, Retryable-ensure_sent_information_request,
  Retryable-ensure_signed_information_request, Retryable-ensure_executed_information_request,
}
use tokenbridge_monitor.Monitor.Handlers.{
  BridgeEventHandler, EventData, EventHandler, transaction_by_hash,
}
use tokenbridge_monitor.Monitor.Handlers.Amb.{
  handle_user_request_for_affirmation, handle_user_request_for_signature,
  handle_legacy_user_request_for_affirmation, handle_legacy_user_request_for_signature,
  handle_signed_for_user_request, handle_relayed_message, handle_affirmation_completed,
  handle_collected_signatures, handle_user_request_for_information, handle_signed_for_information,
  handle_information_retrieved,
}
use tokenbridge_monitor.Monitor.Handlers.ErcToNative.{
  handle_erc_to_native_signed_for_affirmation, handle_erc_to_native_relayed_message,
  handle_erc_to_native_affirmation_completed,
}

abbrev pub IsRetryable : EventHandler → Type 0
IsRetryable handle = (log : Log) (args : EventData) → Retryable (handle log args)

pub Retryable-transaction_by_hash :
    (p : BridgeEventHandler) (hash : Hash) → Retryable (transaction_by_hash p hash)
unfolding transaction_by_hash
Retryable-transaction_by_hash p hash = Retryable-query _ (λ s t a e x. e)

pub ruleset retry_rules = (
  Retryable-lift, Retryable-bind, Retryable-if, Retryable-transaction_by_hash,
  Retryable-ensure_message, Retryable-ensure_sent_message, Retryable-ensure_signed_message,
  Retryable-ensure_collected_message, Retryable-ensure_executed_message,
  Retryable-ensure_information_request, Retryable-ensure_sent_information_request,
  Retryable-ensure_signed_information_request, Retryable-ensure_executed_information_request,
)

module _ (p : BridgeEventHandler) where
  pub user_request_for_affirmation-IsRetryable : IsRetryable (handle_user_request_for_affirmation p)
  unfolding handle_user_request_for_affirmation
  user_request_for_affirmation-IsRetryable log args = search retry_rules depth 12

  pub user_request_for_signature-IsRetryable : IsRetryable (handle_user_request_for_signature p)
  unfolding handle_user_request_for_signature
  user_request_for_signature-IsRetryable log args = search retry_rules depth 12

  pub legacy_user_request_for_affirmation-IsRetryable :
      IsRetryable (handle_legacy_user_request_for_affirmation p)
  unfolding handle_legacy_user_request_for_affirmation
  legacy_user_request_for_affirmation-IsRetryable log args = search retry_rules depth 12

  pub legacy_user_request_for_signature-IsRetryable :
      IsRetryable (handle_legacy_user_request_for_signature p)
  unfolding handle_legacy_user_request_for_signature
  legacy_user_request_for_signature-IsRetryable log args = search retry_rules depth 12

  pub signed_for_user_request-IsRetryable : IsRetryable (handle_signed_for_user_request p)
  unfolding handle_signed_for_user_request
  signed_for_user_request-IsRetryable log args = search retry_rules depth 12

  pub relayed_message-IsRetryable : IsRetryable (handle_relayed_message p)
  unfolding handle_relayed_message
  relayed_message-IsRetryable log args = search retry_rules depth 12

  pub affirmation_completed-IsRetryable : IsRetryable (handle_affirmation_completed p)
  unfolding handle_affirmation_completed
  affirmation_completed-IsRetryable log args = search retry_rules depth 12

  pub collected_signatures-IsRetryable : IsRetryable (handle_collected_signatures p)
  unfolding handle_collected_signatures
  collected_signatures-IsRetryable log args = search retry_rules depth 12

  pub user_request_for_information-IsRetryable : IsRetryable (handle_user_request_for_information p)
  unfolding handle_user_request_for_information
  user_request_for_information-IsRetryable log args = search retry_rules depth 12

  pub signed_for_information-IsRetryable : IsRetryable (handle_signed_for_information p)
  unfolding handle_signed_for_information
  signed_for_information-IsRetryable log args = search retry_rules depth 12

  pub information_retrieved-IsRetryable : IsRetryable (handle_information_retrieved p)
  unfolding handle_information_retrieved
  information_retrieved-IsRetryable log args = search retry_rules depth 12

  pub erc_to_native_signed_for_affirmation-IsRetryable :
      IsRetryable (handle_erc_to_native_signed_for_affirmation p)
  unfolding handle_erc_to_native_signed_for_affirmation
  erc_to_native_signed_for_affirmation-IsRetryable log args = search retry_rules depth 12

  pub erc_to_native_relayed_message-IsRetryable :
      IsRetryable (handle_erc_to_native_relayed_message p)
  unfolding handle_erc_to_native_relayed_message
  erc_to_native_relayed_message-IsRetryable log args = search retry_rules depth 12

  pub erc_to_native_affirmation_completed-IsRetryable :
      IsRetryable (handle_erc_to_native_affirmation_completed p)
  unfolding handle_erc_to_native_affirmation_completed
  erc_to_native_affirmation_completed-IsRetryable log args = search retry_rules depth 12
