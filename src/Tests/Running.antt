-- ===== src/Tests/Running.antt =====
-- The goroutines at work: a new head, a range fetched, a batch processed.
use tokenbridge_monitor.Base.{
  ◌≤◌, ◌≡◌, ◌≢◌, refl, sym, ap, ◌∙◌, subst, arith, false, none, some, List, [], ◌∷◌, Option, All,
}
use tokenbridge_monitor.Entity.{Log}
use tokenbridge_monitor.Entity.Logs.{new_log}
use tokenbridge_monitor.Exec.{Session, ok, lift, continue, ◌>>=◌, call, query, statement}
use tokenbridge_monitor.Exec.Retry.{Ended}
use tokenbridge_monitor.Ethclient.{Node, filter_logs}
use tokenbridge_monitor.Repo.Table.{upsert_row}
use tokenbridge_monitor.Repo.Find.{sort_logs}
use tokenbridge_monitor.Repo.Ensure.Logs.{ensure_logs, place_logs, place_log}
use tokenbridge_monitor.Repo.Ensure.Upserts.{upsert_cursor, ensure_logs_cursor}
use tokenbridge_monitor.Monitor.Types.{
  BlocksRange, LogsBatch, split_block_range, split_logs_in_batches,
}
use tokenbridge_monitor.Monitor.ContractMonitor.{
  State, record_head_block_number, record_is_synced, record_fetched_block_number, submit_logs,
  submitted,
}
use tokenbridge_monitor.Monitor.ContractMonitor.Fetcher.{
  fetch_round, build_filter_queries, fetch_logs, find_and_save, try_to_fetch_logs,
}
use tokenbridge_monitor.Monitor.ContractMonitor.Batches.{process_logs_batch}
use tokenbridge_monitor.Monitor.ContractMonitor.Steps.{
  FindsWithin, Steps, looked_for_head, fetched, processed, stay, go_on,
}
use tokenbridge_monitor.Monitor.ContractMonitor.Steps.InOrder.{InOrder}
use tokenbridge_monitor.Monitor.ContractMonitor.Steps.Reachable.{steps_lem}
use tokenbridge_monitor.Tests.Values.{some_contract, some_state, some_store}

abbrev new_range : BlocksRange
new_range = record { from = 121; to = 130 }

-- One log of block 125, whatever is asked.
abbrev one_log_node : Node
one_log_node = record {
  get_logs = λ q. ok (
      record {
        address = 1 ∷ [];
        eth_topics = (40 ∷ []) ∷ [];
        payload = [];
        block_number = 125;
        index = 0;
        tx_hash = 4 ∷ [];
      }
      ∷ []);
  block_number = λ q. ok 140;
}

abbrev headed : State
headed = record some_state {
  head_block = 130;
  is_synced = false;
  blocks_range_chan = some new_range ∷ [];
}

headed_test : fetch_round some_contract (some 140) 121 some_state ≡ some (131, headed)
unfolding fetch_round split_block_range record_head_block_number record_is_synced
headed_test = refl

abbrev found : Log
found = record {
  id = 4;
  chain_id = "100";
  address = 1 ∷ [];
  topic0 = some (40 ∷ []);
  topic1 = none;
  topic2 = none;
  topic3 = none;
  payload = [];
  block_number = 125;
  log_index = 0;
  transaction_hash = 4 ∷ [];
}

abbrev saved : Session
saved = (find_and_save some_contract one_log_node new_range headed.session).1

found_test :
    find_and_save some_contract one_log_node new_range headed.session ≡ (ok (found ∷ []), saved)
unfolding find_and_save build_filter_queries fetch_logs filter_logs query call continue lift ◌>>=◌
    sort_logs ensure_logs place_logs place_log new_log
found_test = refl

found_below : found.block_number ≤ 130
found_below = omega arith

found_within : FindsWithin some_contract one_log_node new_range headed.session
found_within logs s' h =
    let same : found ∷ [] ≡ logs = cc (ap (λ p. p.0) (sym found_test ∙ h)) in
    subst (All (λ l. l.block_number ≤ 130)) same (found_below, tt)

abbrev after_fetch : State
after_fetch = (try_to_fetch_logs some_contract one_log_node new_range headed).1

after_fetch_test :
    try_to_fetch_logs some_contract one_log_node new_range headed ≡ (ok tt, after_fetch)
unfolding try_to_fetch_logs find_and_save build_filter_queries fetch_logs filter_logs query call
    continue lift ◌>>=◌ sort_logs ensure_logs place_logs place_log new_log
    record_fetched_block_number ensure_logs_cursor statement upsert_cursor upsert_row
after_fetch_test = refl

abbrev submitted_state : State
submitted_state = record after_fetch { blocks_range_chan = [] }

abbrev two_batches : List (Option LogsBatch)
two_batches =
    some (record { block_number = 125; logs = found ∷ [] })
    ∷ some (record { block_number = 130; logs = [] })
    ∷ []

submitted_test : submitted_state.logs_chan ≡ two_batches
unfolding try_to_fetch_logs find_and_save build_filter_queries fetch_logs filter_logs query call
    continue lift ◌>>=◌ sort_logs ensure_logs place_logs place_log new_log
    record_fetched_block_number ensure_logs_cursor statement upsert_cursor upsert_row submit_logs
    submitted split_logs_in_batches
submitted_test = refl

abbrev first_batch : LogsBatch
first_batch = record { block_number = 125; logs = found ∷ [] }

abbrev last_batch : List (Option LogsBatch)
last_batch = some (record { block_number = 130; logs = [] }) ∷ []

abbrev after_batch : Ended Unit × State
after_batch =
    process_logs_batch some_contract (λ n. ok 1700) 0 first_batch
      (record submitted_state { logs_chan = last_batch })

three-Steps : Steps some_contract some_state after_batch.1
three-Steps =
    go_on submitted_state after_batch.1
      (go_on headed submitted_state
        (go_on some_state headed stay (looked_for_head (some 140) 121 131 headed headed_test))
        (fetched one_log_node new_range [] after_fetch refl (omega arith) found_within
          after_fetch_test))
      (processed (λ n. ok 1700) 0 first_batch last_batch after_batch.0 after_batch.1 submitted_test
        refl)

some_state-InOrder : InOrder some_state
some_state-InOrder = record { cursor_in_order = omega arith; batches_fetched = tt }

steps_lem_example :
    InOrder after_batch.1 × (upsert_cursor after_batch.1.logs_cursor some_store ≢ none)
steps_lem_example =
    steps_lem some_contract some_state after_batch.1 some_store some_state-InOrder three-Steps
