-- ===== src/Tests/Cursors.antt =====
-- The cursor recorded.
use tokenbridge_monitor.Base.{◌≡◌, refl, arith}
use Prim.Native.Nat.{max}
use tokenbridge_monitor.Exec.{ok}
use tokenbridge_monitor.Config.{BridgeSideConfig}
use tokenbridge_monitor.Monitor.ContractMonitor.{
  State, initial_cursor, record_is_synced, record_head_block_number, record_fetched_block_number,
  record_processed_block_number,
}
use tokenbridge_monitor.Repo.Ensure.Upserts.{ensure_logs_cursor, upsert_cursor}
use tokenbridge_monitor.Repo.Table.{upsert_row}
use tokenbridge_monitor.Exec.{statement, continue, call}
use tokenbridge_monitor.Monitor.ContractMonitor.Cursor.{
  IsConsistent, record_head_block_number_lem, record_fetched_block_number_lem,
  record_processed_block_number_lem, start_at_zero_stays,
}
use tokenbridge_monitor.Monitor.ContractMonitor.Cursor.Saved.{
  SavedIn, record_processed_block_number-SavedIn, record_fetched_block_number-SavedIn,
}
use tokenbridge_monitor.Tests.Values.{some_side, some_state}

record_head_block_number_lem_example :
    let st' = record_head_block_number 125 some_state in
    (st'.head_block ≡ max some_state.head_block 125)
    × (st'.logs_cursor ≡ some_state.logs_cursor)
    × IsConsistent st'
record_head_block_number_lem_example = record_head_block_number_lem 125 some_state refl

record_fetched_block_number_lem_example :
    let st' = (record_fetched_block_number 130 some_state).1 in
    st' ≡ record some_state {
      logs_cursor = record some_state.logs_cursor {
        last_fetched_block = max some_state.logs_cursor.last_fetched_block 130;
      };
      session = st'.session;
    }
record_fetched_block_number_lem_example = record_fetched_block_number_lem 130 some_state

record_processed_block_number_lem_example :
    let st' = (record_processed_block_number 115 some_state).1 in
    (st'.logs_cursor.last_processed_block ≡ max some_state.logs_cursor.last_processed_block 115)
    × (st'.logs_cursor.last_fetched_block ≡ some_state.logs_cursor.last_fetched_block)
    × (st'.head_block ≡ some_state.head_block)
    × IsConsistent st'
record_processed_block_number_lem_example = record_processed_block_number_lem 115 some_state refl

abbrev processed_115 : State
processed_115 = (record_processed_block_number 115 some_state).1

processed_test : record_processed_block_number 115 some_state ≡ (ok tt, processed_115)
unfolding record_processed_block_number record_is_synced ensure_logs_cursor upsert_cursor upsert_row
    statement continue call
processed_test = refl

record_processed_block_number-SavedIn_example :
    SavedIn processed_115.session.store processed_115.logs_cursor
record_processed_block_number-SavedIn_example =
    record_processed_block_number-SavedIn 115 some_state processed_115 (omega arith) processed_test

abbrev fetched_130 : State
fetched_130 = (record_fetched_block_number 130 some_state).1

fetched_test : record_fetched_block_number 130 some_state ≡ (ok tt, fetched_130)
unfolding record_fetched_block_number ensure_logs_cursor upsert_cursor upsert_row statement continue
    call
fetched_test = refl

record_fetched_block_number-SavedIn_example :
    SavedIn fetched_130.session.store fetched_130.logs_cursor
record_fetched_block_number-SavedIn_example =
    record_fetched_block_number-SavedIn 130 some_state fetched_130 (omega arith) fetched_test

abbrev from_zero : BridgeSideConfig
from_zero = record some_side { start_block = 0 }

abbrev started_at_zero : State
started_at_zero = record some_state { logs_cursor = initial_cursor from_zero }

start_at_zero_stays_example :
    (record_fetched_block_number 1000 started_at_zero ≡ (ok tt, started_at_zero))
    × (record_processed_block_number 1000 started_at_zero ≡ (ok tt, started_at_zero))
start_at_zero_stays_example =
    start_at_zero_stays from_zero started_at_zero 1000 refl refl (omega arith)
