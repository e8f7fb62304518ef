-- ===== src/Repo/Ensure/Retries.antt =====
-- The insertions of `Ensure` may be repeated, and so may the reading of logs.
use tokenbridge_monitor.Base.{nat_eq, string_eq, bytes_eq, beq_refl}
use tokenbridge_monitor.Entity.{
  Message, SentMessage, SignedMessage, CollectedMessage, ExecutedMessage, InformationRequest,
  SentInformationRequest, SignedInformationRequest, ExecutedInformationRequest,
}
use tokenbridge_monitor.Repo.Growing.{insert_into-IsInsertion}
use tokenbridge_monitor.Exec.Retryable.{Retryable}
use tokenbridge_monitor.Exec.Calls.{Retryable-statement}
use tokenbridge_monitor.Repo.Ensure.{
  ensure_message, ensure_sent_message, ensure_signed_message, ensure_collected_message,
  ensure_executed_message, ensure_information_request, ensure_sent_information_request,
  ensure_signed_information_request, ensure_executed_information_request,
}

pub Retryable-ensure_message : (msg : Message) → Retryable (ensure_message msg)
unfolding ensure_message
Retryable-ensure_message msg =
    Retryable-statement _
      (insert_into-IsInsertion _ _ _ msg (rw (beq_refl msg.bridge_id, beq_refl msg.msg_hash)))

pub Retryable-ensure_information_request :
    (msg : InformationRequest) → Retryable (ensure_information_request msg)
unfolding ensure_information_request
Retryable-ensure_information_request msg =
    Retryable-statement _
      (insert_into-IsInsertion _ _ _ msg (rw (beq_refl msg.bridge_id, beq_refl msg.message_id)))

pub Retryable-ensure_sent_message : (msg : SentMessage) → Retryable (ensure_sent_message msg)
unfolding ensure_sent_message
Retryable-ensure_sent_message msg =
    Retryable-statement _ (insert_into-IsInsertion _ _ _ msg (beq_refl msg.log_id))

pub Retryable-ensure_signed_message : (msg : SignedMessage) → Retryable (ensure_signed_message msg)
unfolding ensure_signed_message
Retryable-ensure_signed_message msg =
    Retryable-statement _ (insert_into-IsInsertion _ _ _ msg (beq_refl msg.log_id))

pub Retryable-ensure_collected_message :
    (msg : CollectedMessage) → Retryable (ensure_collected_message msg)
unfolding ensure_collected_message
Retryable-ensure_collected_message msg =
    Retryable-statement _ (insert_into-IsInsertion _ _ _ msg (beq_refl msg.log_id))

pub Retryable-ensure_executed_message :
    (msg : ExecutedMessage) → Retryable (ensure_executed_message msg)
unfolding ensure_executed_message
Retryable-ensure_executed_message msg =
    Retryable-statement _ (insert_into-IsInsertion _ _ _ msg (beq_refl msg.log_id))

pub Retryable-ensure_sent_information_request :
    (msg : SentInformationRequest) → Retryable (ensure_sent_information_request msg)
unfolding ensure_sent_information_request
Retryable-ensure_sent_information_request msg =
    Retryable-statement _ (insert_into-IsInsertion _ _ _ msg (beq_refl msg.log_id))

pub Retryable-ensure_signed_information_request :
    (msg : SignedInformationRequest) → Retryable (ensure_signed_information_request msg)
unfolding ensure_signed_information_request
Retryable-ensure_signed_information_request msg =
    Retryable-statement _ (insert_into-IsInsertion _ _ _ msg (beq_refl msg.log_id))

pub Retryable-ensure_executed_information_request :
    (msg : ExecutedInformationRequest) → Retryable (ensure_executed_information_request msg)
unfolding ensure_executed_information_request
Retryable-ensure_executed_information_request msg =
    Retryable-statement _ (insert_into-IsInsertion _ _ _ msg (beq_refl msg.log_id))
