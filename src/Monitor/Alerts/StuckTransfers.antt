-- ===== src/Monitor/Alerts/StuckTransfers.antt =====
-- db_alerts_provider.go: transfers of an ERC-TO-NATIVE bridge that are not through yet. The value is
-- kept as it is recorded; the query shows it divided by 10^18.
use tokenbridge_monitor.Base.{
  ℕ, Bool, not, ◌&&◌, Option, List, [], map, filter_by, leb, ltb, ◌++◌, ◌==◌, nat_eq, string_eq,
  bytes_eq,
}
use tokenbridge_monitor.Entity.{
  Address, Hash, SentMessage, SignedMessage, CollectedMessage, ExecutedMessage, ErcToNativeMessage,
}
use tokenbridge_monitor.Repo.Store.{Store}
use tokenbridge_monitor.Repo.Join.{join, left_join, is_none}
use tokenbridge_monitor.Exec.{ok, Exec, query}
use tokenbridge_monitor.Monitor.Alerts.Tables.{
  AlertJobParams, Place, Located, place_of, row_of, located,
}
use tokenbridge_monitor.Monitor.Alerts.Stuck.{
  group_by, count_some, union_rows, same_place, same_sent, block_of, is_home_to_foreign,
}

pub record StuckErcToNativeMessage : Type 0 where
  pub place : Place
  pub msg_hash : Hash
  pub count : ℕ
  pub sender : Address
  pub receiver : Address
  pub value : ℕ

abbrev same_transfer : StuckErcToNativeMessage → StuckErcToNativeMessage → Bool
same_transfer a b =
    same_place a.place b.place
    && a.msg_hash == b.msg_hash
    && a.count == b.count
    && a.sender == b.sender
    && a.receiver == b.receiver
    && a.value == b.value

abbrev TransferRow : Type 0
TransferRow = Located SentMessage × ErcToNativeMessage

abbrev SignedTransferRow : Type 0
SignedTransferRow = TransferRow × Option SignedMessage

abbrev signed_transfers : Store → List SignedTransferRow
signed_transfers s =
    left_join
      (λ (r : TransferRow) (sig : SignedMessage).
        sig.bridge_id == r.1.bridge_id && r.1.msg_hash == sig.msg_hash)
      (join
        (λ (r : Located SentMessage) (m : ErcToNativeMessage).
          (row_of r).bridge_id == m.bridge_id && m.msg_hash == (row_of r).msg_hash)
        (located (λ (sm : SentMessage). sm.log_id) s s.sent_messages) s.erc_to_native_messages)
      s.signed_messages

-- GROUP BY sm.log_id, l.id, ts.timestamp, m.id
abbrev same_transfer_row : TransferRow → TransferRow → Bool
same_transfer_row (r, m) (r', m') =
    same_sent r r' && (m.bridge_id == m'.bridge_id && m.msg_hash == m'.msg_hash)

abbrev stuck_transfer : TransferRow → ℕ → StuckErcToNativeMessage
stuck_transfer (r, m) count = record {
  place = place_of r;
  msg_hash = (row_of r).msg_hash;
  count = count;
  sender = m.sender;
  receiver = m.receiver;
  value = m.value;
}

module _ (params : AlertJobParams) where
  abbrev stuck_at_home : SignedTransferRow × Option CollectedMessage → Bool
  stuck_at_home (((r, m), sig), cm) =
      is_home_to_foreign m.direction
      && is_none cm
      && (row_of r).bridge_id == params.bridge
      && leb params.home_start_block_number (block_of r)

  abbrev stuck_at_foreign : SignedTransferRow × Option ExecutedMessage → Bool
  stuck_at_foreign (((r, m), sig), em) =
      not (is_home_to_foreign m.direction)
      && is_none em
      && (row_of r).bridge_id == params.bridge
      && leb params.foreign_start_block_number (block_of r)
      && ltb 0 m.value

  abbrev grouped : {B : Type 0} → List (SignedTransferRow × B) → List StuckErcToNativeMessage
  grouped {B} rows =
      map
        (λ (g : (SignedTransferRow × B) × List (SignedTransferRow × B)).
          stuck_transfer g.0.0.0 (count_some (λ (r : SignedTransferRow × B). r.0.1) g.1))
        (group_by (λ (a b : SignedTransferRow × B). same_transfer_row a.0.0 b.0.0) rows)

  abbrev home_transfers : Store → List StuckErcToNativeMessage
  home_transfers s = grouped (
      filter_by stuck_at_home (
        left_join
          (λ (r : SignedTransferRow) (cm : CollectedMessage).
            r.0.1.bridge_id == cm.bridge_id && cm.msg_hash == r.0.1.msg_hash)
          (signed_transfers s) s.collected_messages))

  abbrev foreign_transfers : Store → List StuckErcToNativeMessage
  foreign_transfers s = grouped (
      filter_by stuck_at_foreign (
        left_join
          (λ (r : SignedTransferRow) (em : ExecutedMessage).
            r.0.1.bridge_id == em.bridge_id && em.message_id == r.0.1.msg_hash)
          (signed_transfers s) s.executed_messages))

  unfoldable pub find_stuck_erc_to_native_messages : Exec (List StuckErcToNativeMessage)
  find_stuck_erc_to_native_messages =
      query λ s. ok (union_rows same_transfer [] (home_transfers s ++ foreign_transfers s))
