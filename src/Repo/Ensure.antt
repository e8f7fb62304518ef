-- ===== src/Repo/Ensure.antt =====
-- The `Ensure` methods of repository/postgres/*.go. A row must meet the foreign keys and the unique
-- indices of db/migrations/*.sql, and the check on a cursor; checks of lengths, signs and ranges of
-- single columns are left out, and so are the serial ids of messages and requests.
pub mod Upserts
pub mod Logs
pub mod Retries
use tokenbridge_monitor.Base.{ℕ, Bool, true, ◌&&◌, not, ◌==◌, any, nat_eq, string_eq, bytes_eq}
use tokenbridge_monitor.Entity.{
  Message, SentMessage, SignedMessage, CollectedMessage, ExecutedMessage, InformationRequest,
  SentInformationRequest, SignedInformationRequest, ExecutedInformationRequest,
}
use tokenbridge_monitor.Repo.Store.{Store}
use tokenbridge_monitor.Repo.Growing.{insert_into}
use tokenbridge_monitor.Repo.Tables.{
  messages_table, sent_messages_table, signed_messages_table, collected_messages_table,
  executed_messages_table, information_requests_table, sent_information_requests_table,
  signed_information_requests_table, executed_information_requests_table,
}
use tokenbridge_monitor.Exec.{Exec, statement}

-- `log_id … REFERENCES logs`
abbrev pub has_log : ℕ → Store → Bool
has_log id s = any (λ l. l.id == id) s.logs

unfoldable pub ensure_message : Message → Exec Unit
ensure_message msg = statement (
    insert_into messages_table (λ r. r.bridge_id == msg.bridge_id && r.msg_hash == msg.msg_hash)
      (λ s. true) msg)

unfoldable pub ensure_sent_message : SentMessage → Exec Unit
ensure_sent_message msg =
    statement
      (insert_into sent_messages_table (λ r. r.log_id == msg.log_id) (has_log msg.log_id) msg)

-- Unique index on the bridge, the message and the signer.
abbrev signed_before : SignedMessage → Store → Bool
signed_before msg s =
    any (λ r. r.bridge_id == msg.bridge_id && r.msg_hash == msg.msg_hash && r.signer == msg.signer)
      s.signed_messages

unfoldable pub ensure_signed_message : SignedMessage → Exec Unit
ensure_signed_message msg = statement (
    insert_into signed_messages_table (λ r. r.log_id == msg.log_id)
      (λ s. has_log msg.log_id s && not (signed_before msg s)) msg)

unfoldable pub ensure_collected_message : CollectedMessage → Exec Unit
ensure_collected_message msg =
    statement
      (insert_into collected_messages_table (λ r. r.log_id == msg.log_id) (has_log msg.log_id) msg)

unfoldable pub ensure_executed_message : ExecutedMessage → Exec Unit
ensure_executed_message msg =
    statement
      (insert_into executed_messages_table (λ r. r.log_id == msg.log_id) (has_log msg.log_id) msg)

unfoldable pub ensure_information_request : InformationRequest → Exec Unit
ensure_information_request msg = statement (
    insert_into information_requests_table
      (λ r. r.bridge_id == msg.bridge_id && r.message_id == msg.message_id) (λ s. true) msg)

-- Unique index on the bridge and the message id.
abbrev sent_before : SentInformationRequest → Store → Bool
sent_before msg s =
    any (λ r. r.bridge_id == msg.bridge_id && r.message_id == msg.message_id)
      s.sent_information_requests

unfoldable pub ensure_sent_information_request : SentInformationRequest → Exec Unit
ensure_sent_information_request msg = statement (
    insert_into sent_information_requests_table (λ r. r.log_id == msg.log_id)
      (λ s. has_log msg.log_id s && not (sent_before msg s)) msg)

unfoldable pub ensure_signed_information_request : SignedInformationRequest → Exec Unit
ensure_signed_information_request msg = statement (
    insert_into signed_information_requests_table (λ r. r.log_id == msg.log_id) (has_log msg.log_id)
      msg)

-- Unique index on the bridge and the message id.
abbrev executed_before : ExecutedInformationRequest → Store → Bool
executed_before msg s =
    any (λ r. r.bridge_id == msg.bridge_id && r.message_id == msg.message_id)
      s.executed_information_requests

unfoldable pub ensure_executed_information_request : ExecutedInformationRequest → Exec Unit
ensure_executed_information_request msg = statement (
    insert_into executed_information_requests_table (λ r. r.log_id == msg.log_id)
      (λ s. has_log msg.log_id s && not (executed_before msg s)) msg)
