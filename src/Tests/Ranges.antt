-- ===== src/Tests/Ranges.antt =====
-- Block ranges and batches of logs.
use tokenbridge_monitor.Base.{
  ℕ, ◌≡◌, refl, arith, Bool, false, Option, none, some, List, [], ◌∷◌, All, leb, ◌&&◌,
  if◌then◌else◌, take,
}
use tokenbridge_monitor.Entity.{Log, EthLog, new_log}
use tokenbridge_monitor.Entity.Logs.{topics, topics-new_log}
use tokenbridge_monitor.Repo.Find.{sort_logs}
use tokenbridge_monitor.Repo.Find.Sorted.{InLogOrder, count_by, sort_logs_lem}
use tokenbridge_monitor.Monitor.Types.{BlocksRange, split_block_range, split_logs_in_batches}
use tokenbridge_monitor.Monitor.Types.SplitRange.{
  split_block_range-Tiles, hits-split_block_range, Tiles, hits,
}
use tokenbridge_monitor.Monitor.Types.SplitLogs.{
  split_logs_in_batches-IsBatch, IsBatch, Ascending, logs_of,
}
use tokenbridge_monitor.Monitor.ContractMonitor.{submitted, last_block, record_head_block_number}
use tokenbridge_monitor.Monitor.ContractMonitor.Submit.{submitted_lem}
use tokenbridge_monitor.Monitor.ContractMonitor.Fetcher.{safe_head}
use tokenbridge_monitor.Monitor.ContractMonitor.Fetcher.Coverage.{
  Scheduled, fetch_rounds-Scheduled, short_chain_lem,
}
use tokenbridge_monitor.Tests.Values.{some_contract, some_state, log_at}

split_range_test :
    split_block_range 100 200 90
    ≡ some (record { from = 100; to = 189 } ∷ record { from = 190; to = 200 } ∷ [])
unfolding split_block_range
split_range_test = refl

split_empty_test : split_block_range 200 100 90 ≡ some []
unfolding split_block_range
split_empty_test = refl

split_block_range-Tiles_example :
    (rs : List BlocksRange) × (split_block_range 100 200 90 ≡ some rs) × Tiles 90 100 200 rs
split_block_range-Tiles_example = split_block_range-Tiles 100 200 90 (omega arith) (omega arith)

hits-split_block_range_example :
    (rs : List BlocksRange) × (split_block_range 100 200 90 ≡ some rs)
    × ((b : ℕ) → hits b rs ≡ (if leb 100 b && leb b 200 then 1 else 0))
hits-split_block_range_example = hits-split_block_range 100 200 90 (omega arith) (omega arith)

abbrev three_logs : List Log
three_logs = log_at 1 101 8 ∷ log_at 2 101 9 ∷ log_at 3 107 7 ∷ []

split_logs_in_batches-IsBatch_example :
    (logs_of (split_logs_in_batches three_logs) ≡ three_logs)
    × All IsBatch (split_logs_in_batches three_logs)
    × Ascending 0 (split_logs_in_batches three_logs)
split_logs_in_batches-IsBatch_example =
    split_logs_in_batches-IsBatch three_logs (omega arith, (omega arith, (omega arith, tt)))
      (omega arith, (omega arith, (omega arith, tt)))

submitted_lem_example :
    (logs_of (submitted three_logs 120) ≡ three_logs)
    × Ascending 0 (submitted three_logs 120)
    × (last_block (submitted three_logs 120) ≡ some 120)
submitted_lem_example =
    submitted_lem three_logs 120 (omega arith, (omega arith, (omega arith, tt)))
      (omega arith, (omega arith, (omega arith, tt))) (omega arith)

abbrev mixed_logs : List Log
mixed_logs =
    record (log_at 4 107 7) { log_index = 1 }
    ∷ log_at 3 107 7
    ∷ log_at 1 101 8
    ∷ log_at 2 105 9
    ∷ []

sort_logs_lem_example :
    InLogOrder (sort_logs mixed_logs)
    × ((p : Log → Bool) → count_by p (sort_logs mixed_logs) ≡ count_by p mixed_logs)
sort_logs_lem_example = sort_logs_lem mixed_logs

abbrev five_topics : EthLog
five_topics = record {
  address = 1 ∷ [];
  eth_topics = (1 ∷ []) ∷ (2 ∷ []) ∷ (3 ∷ []) ∷ (4 ∷ []) ∷ (5 ∷ []) ∷ [];
  payload = [];
  block_number = 101;
  index = 0;
  tx_hash = 4 ∷ [];
}

topics-new_log_example : topics (new_log "100" five_topics) ≡ take 4 five_topics.eth_topics
topics-new_log_example = topics-new_log "100" five_topics

-- The head rises, is not answered, falls back, and rises again.
abbrev four_answers : List (Option ℕ)
four_answers = some 200 ∷ none ∷ some 180 ∷ some 300 ∷ []

fetch_rounds-Scheduled_example : Scheduled some_contract four_answers 121 some_state
fetch_rounds-Scheduled_example =
    fetch_rounds-Scheduled some_contract four_answers 121 some_state (omega arith) (
      (omega arith, omega arith),
      (tt, ((omega arith, omega arith), ((omega arith, omega arith), tt))),
    )

short_chain_lem_example :
    let first = record_head_block_number (safe_head some_contract 3) some_state in
    (record_head_block_number 500 first ≡ first) × (first.is_synced ≡ false)
short_chain_lem_example =
    short_chain_lem some_contract 3 500 some_state (omega arith) (omega arith) (omega arith)
      (omega arith) (omega arith)
