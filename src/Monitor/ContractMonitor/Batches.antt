-- ===== src/Monitor/ContractMonitor/Batches.antt =====
-- The handling of a batch of logs, with its retries: tryToProcessLogsBatch, tryToGetBlockTimestamp
-- and processLogsBatch of monitor/contract_monitor.go.
pub mod Retries
pub mod Safety
use tokenbridge_monitor.Base.{
  ℕ, zero, suc, String, Bool, true, false, Option, none, some, List, [], ◌∷◌, ◌==◌, string_eq,
  if◌then◌else◌,
}
use tokenbridge_monitor.Entity.{Log, BlockTimestamp}
use tokenbridge_monitor.Contract.Abi.{Abi, parse_log}
use tokenbridge_monitor.Exec.{
  Error, Result, ok, err, panic, not_found, Session, Exec, lift, query, ◌>>=◌, ◌>>◌,
}
use tokenbridge_monitor.Exec.Retry.{Ended, finished, interrupted, crashed, retry}
use tokenbridge_monitor.Repo.Find.{get_block_timestamp}
use tokenbridge_monitor.Repo.Ensure.Upserts.{ensure_block_timestamp}
use tokenbridge_monitor.Monitor.Types.{LogsBatch}
use tokenbridge_monitor.Monitor.Handlers.{EventData, EventHandler}
use tokenbridge_monitor.Monitor.ContractMonitor.{Contract, State, record_processed_block_number}

abbrev pub handler_of : List (String × EventHandler) → String → Option EventHandler
handler_of [] event = none
handler_of ((e, h) ∷ handlers) event = if e == event then some h else handler_of handlers event

-- An event with no handler is skipped.
abbrev pub handle_event : Option EventHandler → Log → EventData → Exec Unit
handle_event none log values = lift (ok tt)
handle_event (some handle) log values = handle log values

unfoldable pub try_to_process_logs : Contract → List Log → Exec Unit
try_to_process_logs c [] = lift (ok tt)
try_to_process_logs c (log ∷ logs) = do
  parsed ← lift (parse_log c.abi log)
  handle_event (handler_of c.event_handlers parsed.0) log parsed.1
  try_to_process_logs c logs

-- `header_time` is the answer of the node to HeaderByNumber.
abbrev add_timestamp : Contract → (ℕ → Result ℕ) → ℕ → Result BlockTimestamp → Exec Unit
add_timestamp c header_time block_number (ok _) = lift (ok tt)
add_timestamp c header_time block_number (err not_found) = do
  time ← query λ _. header_time block_number
  ensure_block_timestamp
      (record { chain_id = c.cfg.chain.chain_id; block_number = block_number; timestamp = time })
add_timestamp c header_time block_number (err e) = lift (err e)
add_timestamp c header_time block_number panic = lift panic

unfoldable pub try_to_get_block_timestamp : Contract → (ℕ → Result ℕ) → ℕ → Exec Unit
try_to_get_block_timestamp c header_time block_number s =
    let (r, s') = get_block_timestamp c.cfg.chain.chain_id block_number s in
    add_timestamp c header_time block_number r s'

abbrev pub cancel : State → State
cancel st = record st { session = record st.session { cancelled = true } }

abbrev pub resolve_record :
    Result (Unit {0}) → State → (State → Ended Unit × State) → Ended Unit × State
resolve_record (ok _) st again = (finished tt, st)
resolve_record panic st again = (crashed, st)
resolve_record (err _) st again = elim st.session.cancelled [
  | true ↦ (interrupted, st)
  | false ↦ again st
]

-- The loop around recordProcessedBlockNumber; a wait is interrupted as in `retry`.
unfoldable pub record_loop : ℕ → ℕ → State → Ended Unit × State
record_loop zero block_number st =
    let (r, st') = record_processed_block_number block_number st in
    resolve_record r st' (λ st''. (interrupted, cancel st''))
record_loop (suc waits) block_number st =
    let (r, st') = record_processed_block_number block_number st in
    resolve_record r st' (record_loop waits block_number)

abbrev pub unless_crashed : Ended Unit → State → (State → Ended Unit × State) → Ended Unit × State
unless_crashed crashed st next = (crashed, st)
unless_crashed _ st next = next st

-- The two goroutines touch different tables; here the one that sees to the timestamp ends first.
-- An interrupted goroutine ends too, and the cursor is recorded all the same.
unfoldable pub process_logs_batch :
    Contract → (ℕ → Result ℕ) → ℕ → LogsBatch → State → Ended Unit × State
unfolding record_loop
process_logs_batch c header_time waits batch st =
    let (e1, s1) =
      retry waits (try_to_get_block_timestamp c header_time batch.block_number) st.session in
    unless_crashed e1 (record st { session = s1 })
      λ st1.
        let (e2, s2) = retry waits (try_to_process_logs c batch.logs) st1.session in
        unless_crashed e2 (record st1 { session = s2 }) (record_loop waits batch.block_number)
