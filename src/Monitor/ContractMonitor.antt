-- ===== src/Monitor/ContractMonitor.antt =====
-- monitor/contract_monitor.go: the state of the monitor of one contract, and what the goroutines do
-- with the cursor, the head block and the two channels. A channel is the list of what was sent and
-- not yet received, oldest first; a `nil` that is sent is `none`. Logging and metrics are left out.
pub mod Batches
pub mod Cursor
pub mod Fetcher
pub mod Submit
pub mod Steps
pub mod Reprocess
use tokenbridge_monitor.Base.{
  ℕ, zero, suc, ◌+◌, String, Bool, true, false, Option, none, some, List, [], ◌∷◌, ◌++◌, map, Bytes,
  ltb, add_uint, sub_uint, ◌==◌, string_eq, if◌then◌else◌,
}
use tokenbridge_monitor.Entity.{Hash, Log, LogsCursor, EthLog}
use tokenbridge_monitor.Config.{BridgeSideConfig, BridgeMode}
use tokenbridge_monitor.Contract.Abi.{Abi, all_events}
use tokenbridge_monitor.Geth.{Geth}
use tokenbridge_monitor.Exec.{Error, Result, ok, err, panic, Session, Exec}
use tokenbridge_monitor.Repo.Ensure.Upserts.{ensure_logs_cursor}
use tokenbridge_monitor.Monitor.Types.{BlocksRange, LogsBatch, split_logs_in_batches}
use tokenbridge_monitor.Monitor.Handlers.{EventHandler}

-- The part that stays: the configuration and the handlers by the name of their event.
pub record Contract : Type 0 where
  pub geth : Geth
  pub bridge_mode : BridgeMode
  pub cfg : BridgeSideConfig
  pub abi : Abi
  pub event_handlers : List (String × EventHandler)

pub record State : Type 0 where
  pub logs_cursor : LogsCursor
  pub head_block : ℕ
  pub is_synced : Bool
  pub blocks_range_chan : List (Option BlocksRange)
  pub logs_chan : List (Option LogsBatch)
  pub session : Session

-- `defaultSyncedThreshold`
abbrev pub synced_threshold : ℕ
synced_threshold = 10

abbrev pub synced_at : ℕ → ℕ → Bool
synced_at last_processed head = ltb head (add_uint last_processed synced_threshold)

-- The cursor of a contract that the database has none for; `StartBlock - 1` wraps at 0.
unfoldable pub initial_cursor : BridgeSideConfig → LogsCursor
initial_cursor cfg = record {
  chain_id = cfg.chain.chain_id;
  address = cfg.address;
  last_fetched_block = sub_uint cfg.start_block 1;
  last_processed_block = sub_uint cfg.start_block 1;
}

unfoldable pub register_event_handler : String → EventHandler → Contract → Contract
register_event_handler event handler c = record c {
  event_handlers = (event, handler) ∷ c.event_handlers;
}

-- VerifyEventHandlersABI finds no handler of an event that the ABI does not have.
unfoldable pub verify_event_handlers_abi : Abi → List (String × EventHandler) → Bool
unfolding all_events
verify_event_handlers_abi abi [] = true
verify_event_handlers_abi abi ((e, _) ∷ handlers) =
    if all_events abi e then verify_event_handlers_abi abi handlers else false

unfoldable pub record_is_synced : State → State
record_is_synced st = record st {
  is_synced = synced_at st.logs_cursor.last_processed_block st.head_block;
}

unfoldable pub record_head_block_number : ℕ → State → State
unfolding record_is_synced
record_head_block_number block_number st =
    if ltb block_number st.head_block
    then st
    else record_is_synced (record st { head_block = block_number })

-- The cursor in memory is set first, then saved.
save_cursor : State → Result (Unit {0}) × State
save_cursor st =
    let (r, s') = ensure_logs_cursor st.logs_cursor st.session in (r, record st { session = s' })

unfoldable pub record_fetched_block_number : ℕ → State → Result (Unit {0}) × State
unfolding save_cursor
record_fetched_block_number block_number st =
    if ltb block_number st.logs_cursor.last_fetched_block
    then (ok tt, st)
    else save_cursor
        (record st { logs_cursor = record st.logs_cursor { last_fetched_block = block_number } })

unfoldable pub record_processed_block_number : ℕ → State → Result (Unit {0}) × State
unfolding save_cursor record_is_synced
record_processed_block_number block_number st =
    if ltb block_number st.logs_cursor.last_processed_block
    then (ok tt, st)
    else save_cursor (
        record_is_synced (record st {
          logs_cursor = record st.logs_cursor { last_processed_block = block_number };
        }))

abbrev pub last_block : List LogsBatch → Option ℕ
last_block [] = none
last_block (b ∷ []) = some b.block_number
last_block (b ∷ c ∷ bs) = last_block (c ∷ bs)

-- An empty batch of the last block follows, unless the logs reach it.
abbrev pub closing : List LogsBatch → ℕ → List LogsBatch
closing batches end_block = elim (last_block batches) [
  | none ↦ record { block_number = end_block; logs = [] } ∷ []
  | some n ↦ if ltb n end_block then record { block_number = end_block; logs = [] } ∷ [] else []
]

unfoldable pub submitted : List Log → ℕ → List LogsBatch
submitted logs end_block =
    let batches = split_logs_in_batches logs in batches ++ closing batches end_block

unfoldable pub submit_logs : List Log → ℕ → State → State
unfolding submitted
submit_logs logs end_block st = record st {
  logs_chan = st.logs_chan ++ map (λ b. some b) (submitted logs end_block);
}
