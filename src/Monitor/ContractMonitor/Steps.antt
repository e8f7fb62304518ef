-- ===== src/Monitor/ContractMonitor/Steps.antt =====
-- The goroutines of monitor/contract_monitor.go as steps on the state: a round of
-- StartBlockFetcher, an attempt of StartLogsFetcher, a batch of StartLogsProcessor, and LoadUnprocessedLogs up to the fetched block, in any order. A
-- range that is to be fetched again stays at the head of its channel.
pub mod Found
pub mod Unprocessed
pub mod InOrder
pub mod Fetching
pub mod Reachable
use tokenbridge_monitor.Base.{ℕ, ◌≤◌, ◌<◌, ◌≡◌, Option, none, some, List, ◌∷◌, All}
use tokenbridge_monitor.Entity.{Log}
use tokenbridge_monitor.Exec.{Error, Result, ok, err, Session}
use tokenbridge_monitor.Exec.Retry.{Ended}
use tokenbridge_monitor.Ethclient.{Node}
use tokenbridge_monitor.Monitor.Types.{BlocksRange, LogsBatch, max_uint32}
use tokenbridge_monitor.Monitor.ContractMonitor.{Contract, State}
use tokenbridge_monitor.Monitor.ContractMonitor.Fetcher.{
  fetch_round, find_and_save, try_to_fetch_logs, load_unprocessed_logs,
}
use tokenbridge_monitor.Monitor.ContractMonitor.Batches.{process_logs_batch}

-- The logs that are found for a range are of blocks up to its end.
abbrev pub FindsWithin : Contract → Node → BlocksRange → Session → Type 0
FindsWithin c node r s =
    (logs : List Log) (s' : Session)
    → find_and_save c node r s ≡ (ok logs, s')
    → All (λ l. l.block_number ≤ r.to) logs

pub data Step (c : Contract) (st : State) : State → Type 0 where
  looked_for_head :
      (answer : Option ℕ) (start next : ℕ) (st' : State)
      → fetch_round c answer start st ≡ some (next, st')
      → Step c st st'
  skipped_range :
      (rest : List (Option BlocksRange))
      → st.blocks_range_chan ≡ none ∷ rest
      → Step c st (record st { blocks_range_chan = rest })
  failed_to_fetch :
      (node : Node) (r : BlocksRange) (rest : List (Option BlocksRange)) (e : Error) (st' : State)
      → st.blocks_range_chan ≡ some r ∷ rest
      → r.to < max_uint32
      → FindsWithin c node r st.session
      → try_to_fetch_logs c node r st ≡ (err e, st')
      → Step c st st'
  fetched :
      (node : Node) (r : BlocksRange) (rest : List (Option BlocksRange)) (st' : State)
      → st.blocks_range_chan ≡ some r ∷ rest
      → r.to < max_uint32
      → FindsWithin c node r st.session
      → try_to_fetch_logs c node r st ≡ (ok tt, st')
      → Step c st (record st' { blocks_range_chan = rest })
  skipped_batch :
      (rest : List (Option LogsBatch))
      → st.logs_chan ≡ none ∷ rest
      → Step c st (record st { logs_chan = rest })
  processed :
      (header_time : ℕ → Result ℕ) (waits : ℕ) (b : LogsBatch) (rest : List (Option LogsBatch))
      (e : Ended Unit) (st' : State)
      → st.logs_chan ≡ some b ∷ rest
      → process_logs_batch c header_time waits b (record st { logs_chan = rest }) ≡ (e, st')
      → Step c st st'
  loaded_unprocessed :
      (from_block waits : ℕ) (e : Ended Unit) (st' : State)
      → st.logs_cursor.last_fetched_block < max_uint32
      → load_unprocessed_logs c from_block st.logs_cursor.last_fetched_block waits st ≡ (e, st')
      → Step c st st'

pub data Steps (c : Contract) (st : State) : State → Type 0 where
  stay : Steps c st st
  go_on : (mid final : State) → Steps c st mid → Step c mid final → Steps c st final
