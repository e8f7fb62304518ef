-- ===== src/Repo/Ensure/Upserts.antt =====
-- The `Ensure` methods whose conflict clause sets columns, and that of the logs, which numbers them.
use tokenbridge_monitor.Base.{
  true, ◌&&◌, ◌==◌, Option, none, leb, any, nat_eq, string_eq, bytes_eq, if◌then◌else◌,
}
use mathlib.Core.Option
use tokenbridge_monitor.Entity.{LogsCursor, BlockTimestamp, ErcToNativeMessage, BridgeValidator}
use tokenbridge_monitor.Repo.Store.{Store}
use tokenbridge_monitor.Repo.Table.{upsert_row}
use tokenbridge_monitor.Exec.{Exec, statement}

-- The constraint `processed_before_fetched` holds for the new row on either branch. The range of the
-- INT columns is not checked: a block from 2^31 on is refused by the database and accepted here.
unfoldable pub upsert_cursor : LogsCursor → Store → Option Store
upsert_cursor cursor s =
    if leb cursor.last_processed_block cursor.last_fetched_block
    then Option.map (λ rows. record s { logs_cursors = rows })
        (upsert_row (λ r. r.chain_id == cursor.chain_id && r.address == cursor.address)
          (λ r. record r {
            last_fetched_block = cursor.last_fetched_block;
            last_processed_block = cursor.last_processed_block;
          })
          true cursor s.logs_cursors)
    else none

unfoldable pub ensure_logs_cursor : LogsCursor → Exec Unit
ensure_logs_cursor cursor = statement (upsert_cursor cursor)

unfoldable pub ensure_block_timestamp : BlockTimestamp → Exec Unit
unfolding upsert_row
ensure_block_timestamp ts = statement λ s.
    Option.map (λ rows. record s { block_timestamps = rows })
      (upsert_row (λ r. r.chain_id == ts.chain_id && r.block_number == ts.block_number)
        (λ r. record r { timestamp = ts.timestamp }) true ts s.block_timestamps)

unfoldable pub ensure_erc_to_native_message : ErcToNativeMessage → Exec Unit
unfolding upsert_row
ensure_erc_to_native_message msg = statement λ s.
    Option.map (λ rows. record s { erc_to_native_messages = rows })
      (upsert_row (λ r. r.bridge_id == msg.bridge_id && r.msg_hash == msg.msg_hash)
        (λ r. record r { sender = msg.sender }) true msg s.erc_to_native_messages)

-- The foreign key of `removed_log_id` on the logs is not checked.
unfoldable pub upsert_validator : BridgeValidator → Store → Option Store
unfolding upsert_row
upsert_validator val s =
    Option.map (λ rows. record s { bridge_validators = rows })
      (upsert_row (λ r. r.log_id == val.log_id)
        (λ r. record r { removed_log_id = val.removed_log_id })
        (any (λ l. l.id == val.log_id) s.logs) val s.bridge_validators)

unfoldable pub ensure_bridge_validator : BridgeValidator → Exec Unit
ensure_bridge_validator val = statement (upsert_validator val)
