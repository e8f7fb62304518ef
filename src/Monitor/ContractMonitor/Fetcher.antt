-- ===== src/Monitor/ContractMonitor/Fetcher.antt =====
-- The search for logs: StartBlockFetcher, buildFilterQueries, tryToFetchLogs and LoadUnprocessedLogs of
-- monitor/contract_monitor.go.
pub mod Coverage
use tokenbridge_monitor.Base.{
  ℕ, zero, suc, ◌+◌, Bool, true, false, Option, none, some, List, [], ◌∷◌, ◌++◌, map, ltb, not,
  filter_by, add_uint, sub_uint, if◌then◌else◌,
}
use tokenbridge_monitor.Entity.{Log, LogsFilter, EthLog, new_log}
use tokenbridge_monitor.Config.{
  BridgeMode, TokenConfig, out_of_range, contract_addresses, arbitrary_message, erc_to_native,
  other,
}
use tokenbridge_monitor.Geth.{Geth}
use tokenbridge_monitor.Exec.{Result, ok, err, panic, Session, Exec, lift, ◌>>=◌, ◌>>◌}
use tokenbridge_monitor.Ethclient.{FilterQuery, Node, filter_logs, filter_logs_safe}
use tokenbridge_monitor.Repo.Find.{sort_logs, find_logs}
use tokenbridge_monitor.Exec.Retry.{Ended, finished, interrupted, crashed, retry}
use tokenbridge_monitor.Repo.Ensure.Logs.{ensure_logs}
use tokenbridge_monitor.Monitor.Types.{BlocksRange, split_block_range}
use tokenbridge_monitor.Monitor.ContractMonitor.{
  Contract, State, record_head_block_number, record_fetched_block_number, submit_logs,
}

-- The head that counts is the node's less the confirmations; the subtraction wraps.
abbrev pub safe_head : Contract → ℕ → ℕ
safe_head c answer = sub_uint answer c.cfg.block_confirmations

abbrev pub schedule : ℕ → State → Option (List BlocksRange) → Option (ℕ × State)
schedule head st none = none
schedule head st (some ranges) = some (
  add_uint head 1,
  record st { blocks_range_chan = st.blocks_range_chan ++ map (λ r. some r) ranges },
)

-- One round of StartBlockFetcher: the next block to ask for and the state. `none` is an answer of
-- the node that is an error; the result `none` is a round that does not end.
unfoldable pub fetch_round : Contract → Option ℕ → ℕ → State → Option (ℕ × State)
fetch_round c none start st = some (start, st)
fetch_round c (some answer) start st =
    let head = safe_head c answer in
    schedule head (record_head_block_number head st)
      (split_block_range start head c.cfg.max_block_range_size)

abbrev then_rounds : Option (ℕ × State) → (ℕ → State → Option (ℕ × State)) → Option (ℕ × State)
then_rounds none next = none
then_rounds (some (start, st)) next = next start st

-- StartBlockFetcher over the answers of the node.
unfoldable pub fetch_rounds : Contract → List (Option ℕ) → ℕ → State → Option (ℕ × State)
fetch_rounds c [] start st = some (start, st)
fetch_rounds c (answer ∷ answers) start st =
    then_rounds (fetch_round c answer start st) (fetch_rounds c answers)

abbrev token_query : Contract → BlocksRange → TokenConfig → FilterQuery
token_query c range token = record {
  from_block = if ltb range.from token.start_block then token.start_block else range.from;
  to_block = if ltb token.end_block range.to then token.end_block else range.to;
  addresses = token.address ∷ [];
  topics = [] ∷ [] ∷ (c.geth.address_to_hash c.cfg.address ∷ []) ∷ [];
}

abbrev token_queries : Contract → BlocksRange → BridgeMode → List FilterQuery
token_queries c range erc_to_native =
    map (token_query c range)
      (filter_by (λ t. not (out_of_range range.from range.to t)) c.cfg.erc_to_native_tokens)
token_queries c range arbitrary_message = []
token_queries c range (other _) = []

unfoldable pub build_filter_queries : Contract → BlocksRange → List FilterQuery
build_filter_queries c range =
    record {
      from_block = range.from;
      to_block = range.to;
      addresses = c.cfg.address ∷ c.cfg.validator_contract_address ∷ [];
      topics = [];
    }
    ∷ token_queries c range c.bridge_mode

abbrev request : Contract → Node → FilterQuery → Exec (List EthLog)
request c node q =
    if c.cfg.chain.safe_logs_request then filter_logs_safe node q else filter_logs node q

unfoldable pub fetch_logs : Contract → Node → List FilterQuery → Exec (List Log)
unfolding filter_logs filter_logs_safe
fetch_logs c node [] = lift (ok [])
fetch_logs c node (q ∷ qs) = do
  batch ← request c node q
  rest ← fetch_logs c node qs
  lift (ok (map (new_log c.cfg.chain.chain_id) batch ++ rest))

-- Nothing is saved where nothing was found.
abbrev pub save_logs : List Log → Exec (List Log)
save_logs [] = lift (ok [])
save_logs (l ∷ ls) = ensure_logs (l ∷ ls)

unfoldable pub find_and_save : Contract → Node → BlocksRange → Exec (List Log)
unfolding fetch_logs build_filter_queries ensure_logs sort_logs
find_and_save c node range = do
  logs ← fetch_logs c node (build_filter_queries c range)
  save_logs (sort_logs logs)

abbrev pub submit_if_ok : List Log → ℕ → Result (Unit {0}) × State → Result (Unit {0}) × State
submit_if_ok logs end_block (ok _, st) = (ok tt, submit_logs logs end_block st)
submit_if_ok logs end_block (err e, st) = (err e, st)
submit_if_ok logs end_block (panic, st) = (panic, st)

abbrev pub record_and_submit : ℕ → Result (List Log) → State → Result (Unit {0}) × State
record_and_submit to (ok logs) st = submit_if_ok logs to (record_fetched_block_number to st)
record_and_submit to (err e) st = (err e, st)
record_and_submit to panic st = (panic, st)

unfoldable pub try_to_fetch_logs : Contract → Node → BlocksRange → State → Result (Unit {0}) × State
unfolding find_and_save
try_to_fetch_logs c node range st =
    let (r, s') = find_and_save c node range st.session in
    record_and_submit range.to r (record st { session = s' })

-- The rows of the contract, and of its tokens, that were saved but not processed.
unfoldable pub unprocessed_filter : Contract → ℕ → ℕ → LogsFilter
unprocessed_filter c from_block to_block = record {
  chain_id = some c.cfg.chain.chain_id;
  addresses = contract_addresses c.cfg from_block to_block;
  from_block = some from_block;
  to_block = some to_block;
  tx_hash = none;
  topic0 = [];
  topic1 = [];
  topic2 = [];
  topic3 = [];
  data_length = none;
}

abbrev pub submit_found : ℕ → Ended (List Log) → State → Ended Unit × State
submit_found to_block (finished logs) st = (finished tt, submit_logs logs to_block st)
submit_found to_block interrupted st = (interrupted, st)
submit_found to_block crashed st = (crashed, st)

-- LoadUnprocessedLogs, where the context lives through `waits` waits.
unfoldable pub load_unprocessed_logs : Contract → ℕ → ℕ → ℕ → State → Ended Unit × State
unfolding unprocessed_filter
load_unprocessed_logs c from_block to_block waits st =
    let (e, s') = retry waits (find_logs (unprocessed_filter c from_block to_block)) st.session in
    submit_found to_block e (record st { session = s' })
