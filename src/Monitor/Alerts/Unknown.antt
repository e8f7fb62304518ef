-- ===== src/Monitor/Alerts/Unknown.antt =====
-- db_alerts_provider.go: confirmations and executions of messages that were never seen to be sent.
-- They count once both sides are processed past them.
pub mod Recorded
use tokenbridge_monitor.Base.{ℕ, String, Bool, ◌&&◌, List, map, ◌==◌, string_eq, bytes_eq}
use tokenbridge_monitor.Entity.{
  Address, Hash, SignedMessage, ExecutedMessage, SignedInformationRequest,
  ExecutedInformationRequest,
}
use tokenbridge_monitor.Repo.Store.{Store}
use tokenbridge_monitor.Repo.Join.{left_join, unmatched}
use tokenbridge_monitor.Exec.{ok, Exec, query, ◌>>=◌}
use tokenbridge_monitor.Monitor.Alerts.Tables.{
  AlertJobParams, Place, Located, place_of, row_of, located, on_home, on_either, processed_by,
  find_min_processed_time,
}

pub record UnknownConfirmation : Type 0 where
  pub place : Place
  pub signer : Address
  pub msg_hash : Hash

pub record UnknownExecution : Type 0 where
  pub place : Place
  pub message_id : Hash

pub record UnknownInformationSignature : Type 0 where
  pub place : Place
  pub signer : Address
  pub message_id : Hash

pub record UnknownInformationExecution : Type 0 where
  pub place : Place
  pub message_id : Hash

pub record UnknownErcToNativeExecution : Type 0 where
  pub place : Place
  pub msg_hash : Hash

abbrev pub unknown_confirmation : Located SignedMessage → UnknownConfirmation
unknown_confirmation r = record {
  place = place_of r;
  signer = (row_of r).signer;
  msg_hash = (row_of r).msg_hash;
}

abbrev pub unknown_execution : Located ExecutedMessage → UnknownExecution
unknown_execution r = record { place = place_of r; message_id = (row_of r).message_id }

abbrev unknown_information_signature :
    Located SignedInformationRequest → UnknownInformationSignature
unknown_information_signature r = record {
  place = place_of r;
  signer = (row_of r).signer;
  message_id = (row_of r).message_id;
}

abbrev unknown_information_execution :
    Located ExecutedInformationRequest → UnknownInformationExecution
unknown_information_execution r = record { place = place_of r; message_id = (row_of r).message_id }

abbrev unknown_erc_to_native_execution : Located ExecutedMessage → UnknownErcToNativeExecution
unknown_erc_to_native_execution r = record { place = place_of r; msg_hash = (row_of r).message_id }

module _ (params : AlertJobParams) where
  abbrev pub counted_confirmation : ℕ → Located SignedMessage → Bool
  counted_confirmation t r =
      (row_of r).bridge_id == params.bridge && on_home params r && processed_by t r

  abbrev pub counted_execution : ℕ → Located ExecutedMessage → Bool
  counted_execution t r =
      (row_of r).bridge_id == params.bridge && on_either params r && processed_by t r

  unfoldable pub find_unknown_confirmations : Exec (List UnknownConfirmation)
  unfolding find_min_processed_time
  find_unknown_confirmations = do
    t ← find_min_processed_time params
    query λ s. ok (
        map unknown_confirmation (
          unmatched (counted_confirmation t) (
            left_join
              (λ (r : Located SignedMessage) m.
                (row_of r).bridge_id == m.bridge_id && m.msg_hash == (row_of r).msg_hash)
              (located (λ sm. sm.log_id) s s.signed_messages) s.messages)))

  unfoldable pub find_unknown_executions : Exec (List UnknownExecution)
  unfolding find_min_processed_time
  find_unknown_executions = do
    t ← find_min_processed_time params
    query λ s. ok (
        map unknown_execution (
          unmatched (counted_execution t) (
            left_join
              (λ (r : Located ExecutedMessage) m.
                (row_of r).bridge_id == m.bridge_id && (row_of r).message_id == m.message_id)
              (located (λ em. em.log_id) s s.executed_messages) s.messages)))

  unfoldable pub find_unknown_information_signatures : Exec (List UnknownInformationSignature)
  unfolding find_min_processed_time
  find_unknown_information_signatures = do
    t ← find_min_processed_time params
    query λ s. ok (
        map unknown_information_signature (
          unmatched
            (λ (r : Located SignedInformationRequest).
              (row_of r).bridge_id == params.bridge && on_home params r && processed_by t r)
            (left_join
              (λ (r : Located SignedInformationRequest) m.
                (row_of r).bridge_id == m.bridge_id && m.message_id == (row_of r).message_id)
              (located (λ sr. sr.log_id) s s.signed_information_requests) s.information_requests)))

  unfoldable pub find_unknown_information_executions : Exec (List UnknownInformationExecution)
  unfolding find_min_processed_time
  find_unknown_information_executions = do
    t ← find_min_processed_time params
    query λ s. ok (
        map unknown_information_execution (
          unmatched
            (λ (r : Located ExecutedInformationRequest).
              (row_of r).bridge_id == params.bridge && on_home params r && processed_by t r)
            (left_join
              (λ (r : Located ExecutedInformationRequest) m.
                (row_of r).bridge_id == m.bridge_id && (row_of r).message_id == m.message_id)
              (located (λ er. er.log_id) s s.executed_information_requests)
              s.information_requests)))

  unfoldable pub find_unknown_erc_to_native_confirmations : Exec (List UnknownConfirmation)
  unfolding find_min_processed_time
  find_unknown_erc_to_native_confirmations = do
    t ← find_min_processed_time params
    query λ s. ok (
        map unknown_confirmation (
          unmatched (counted_confirmation t) (
            left_join
              (λ (r : Located SignedMessage) m.
                (row_of r).bridge_id == m.bridge_id && m.msg_hash == (row_of r).msg_hash)
              (located (λ sm. sm.log_id) s s.signed_messages) s.erc_to_native_messages)))

  unfoldable pub find_unknown_erc_to_native_executions : Exec (List UnknownErcToNativeExecution)
  unfolding find_min_processed_time
  find_unknown_erc_to_native_executions = do
    t ← find_min_processed_time params
    query λ s. ok (
        map unknown_erc_to_native_execution (
          unmatched (counted_execution t) (
            left_join
              (λ (r : Located ExecutedMessage) m.
                (row_of r).bridge_id == m.bridge_id && (row_of r).message_id == m.msg_hash)
              (located (λ em. em.log_id) s s.executed_messages) s.erc_to_native_messages)))
