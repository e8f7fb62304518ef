-- ===== src/Presenter/Search.antt =====
-- presenter/presenter.go: the messages that belong to the logs of a search. Of six tasks the first
-- that finds something gives the result of a log; what a task fails with is logged and left at that.
pub mod Sent
use tokenbridge_monitor.Base.{
  ℕ, String, Option, none, some, List, [], ◌∷◌, ◌++◌, map, ◌==◌, nat_eq, find_by,
}
use tokenbridge_monitor.Entity.{Hash, Log, LogsFilter}
use tokenbridge_monitor.Config.Init.{Config}
use tokenbridge_monitor.Exec.{
  Result, ok, err, panic, missing_chain_id, missing_block_query_params,
  missing_msg_hash_and_message_id, Exec, lift, ◌>>=◌,
}
use tokenbridge_monitor.Repo.Find.{find_logs}
use tokenbridge_monitor.Repo.Reads.{
  BridgeMessage, amb, erc, get_msg_hash, get_message_id, get_message_by_msg_hash,
  get_message_by_message_id, get_erc_to_native_message, get_information_request,
  get_sent_message_by_log_id, get_signed_message_by_log_id, get_executed_message_by_log_id,
  get_sent_information_request_by_log_id, get_signed_information_request_by_log_id,
  get_executed_information_request_by_log_id,
}
use tokenbridge_monitor.Presenter.Types.{
  SearchResult, LogInfo, new_log_info, new_bridge_message_info, information_request,
  new_information_request_info,
}
use tokenbridge_monitor.Presenter.Events.{
  optional, build_message_events, build_information_request_events,
}

-- presenter/http/middleware/filter.go: what a request asks for.
pub record FilterContext : Type 0 where
  pub chain_id : Option String
  pub from_block : Option ℕ
  pub to_block : Option ℕ
  pub tx_hash : Option Hash

abbrev logs_filter : FilterContext → LogsFilter
logs_filter filter = record {
  chain_id = filter.chain_id;
  addresses = [];
  from_block = filter.from_block;
  to_block = filter.to_block;
  tx_hash = filter.tx_hash;
  topic0 = [];
  topic1 = [];
  topic2 = [];
  topic3 = [];
  data_length = none;
}

abbrev pub check_blocks : Option ℕ → Option ℕ → Result (Unit {0})
check_blocks (some from_block) (some to_block) = ok tt
check_blocks (some from_block) none = err missing_block_query_params
check_blocks none to_block = err missing_block_query_params

abbrev pub check_filter : FilterContext → Result (Unit {0})
check_filter filter = elim filter.tx_hash [
  | some h ↦ ok tt
  | none ↦ elim filter.chain_id [
    | none ↦ err missing_chain_id
    | some c ↦ check_blocks filter.from_block filter.to_block
  ]
]

unfoldable pub get_filtered_logs : FilterContext → Exec (List Log)
get_filtered_logs filter = do _ ← lift (check_filter filter); find_logs (logs_filter filter)

unfoldable pub get_logs : FilterContext → Exec (List LogInfo)
unfolding get_filtered_logs
get_logs filter = do logs ← get_filtered_logs filter; lift (ok (map new_log_info logs))

abbrev pub amb_or_erc : String → Hash → Option BridgeMessage → Exec BridgeMessage
amb_or_erc bridge_id search_id (some msg) = lift (ok msg)
amb_or_erc bridge_id search_id none = do
  msg ← get_erc_to_native_message bridge_id search_id
  lift (ok (erc msg))

abbrev as_amb : {A : Type 0} → (A → BridgeMessage) → Option A → Option BridgeMessage
as_amb f none = none
as_amb f (some a) = some (f a)

-- A message by its hash, or by its id where there is no hash.
unfoldable pub find_bridge_message : String → Option Hash → Option Hash → Exec BridgeMessage
unfolding optional
find_bridge_message bridge_id none none = lift (err missing_msg_hash_and_message_id)
find_bridge_message bridge_id (some msg_hash) message_id = do
  found ← optional (get_message_by_msg_hash bridge_id msg_hash)
  amb_or_erc bridge_id msg_hash (as_amb (λ m. amb m) found)
find_bridge_message bridge_id none (some message_id) = do
  found ← optional (get_message_by_message_id bridge_id message_id)
  amb_or_erc bridge_id message_id (as_amb (λ m. amb m) found)

-- The event with the id of the log, if the related events have one.
abbrev pub with_event : ℕ → SearchResult → SearchResult
with_event log_id res = record res { event = find_by (λ e. e.log_id == log_id) res.related_events }

-- `res, err := task(ctx, log)`: whatever the error, there is no result.
abbrev pub ok_or_none : {A : Type 0} → Result A → Result (Option A)
ok_or_none (ok a) = ok (some a)
ok_or_none (err e) = ok none
ok_or_none panic = panic

unfoldable pub attempted : {A : Type 0} → Exec A → Exec (Option A)
attempted m s = let (r, s') = m s in (ok_or_none r, s')

module _ (keccak256_text : String → Hash) (cfg : Config) where
  unfoldable pub build_search_result_for_message :
      String → Option Hash → Option Hash → Exec SearchResult
  unfolding find_bridge_message
  build_search_result_for_message bridge_id msg_hash message_id = do
    msg ← find_bridge_message bridge_id msg_hash message_id
    events ← build_message_events cfg bridge_id (get_msg_hash msg) (get_message_id msg)
    lift (ok (record { event = none; view = new_bridge_message_info msg; related_events = events }))

  unfoldable pub build_search_result_for_information_request : String → Hash → Exec SearchResult
  build_search_result_for_information_request bridge_id message_id = do
    req ← get_information_request bridge_id message_id
    events ← build_information_request_events cfg req
    lift (
        ok (record {
          event = none;
          view = information_request (new_information_request_info keccak256_text req);
          related_events = events;
        }))

  unfoldable pub search_sent_message : Log → Exec SearchResult
  unfolding build_search_result_for_message
  search_sent_message log = do
    sent ← get_sent_message_by_log_id log.id
    build_search_result_for_message sent.bridge_id (some sent.msg_hash) none

  unfoldable pub search_signed_message : Log → Exec SearchResult
  unfolding build_search_result_for_message
  search_signed_message log = do
    sig ← get_signed_message_by_log_id log.id
    build_search_result_for_message sig.bridge_id (some sig.msg_hash) none

  unfoldable pub search_executed_message : Log → Exec SearchResult
  unfolding build_search_result_for_message
  search_executed_message log = do
    executed ← get_executed_message_by_log_id log.id
    build_search_result_for_message executed.bridge_id none (some executed.message_id)

  unfoldable pub search_sent_information_request : Log → Exec SearchResult
  unfolding build_search_result_for_information_request
  search_sent_information_request log = do
    sent ← get_sent_information_request_by_log_id log.id
    build_search_result_for_information_request sent.bridge_id sent.message_id

  unfoldable pub search_signed_information_request : Log → Exec SearchResult
  unfolding build_search_result_for_information_request
  search_signed_information_request log = do
    signed ← get_signed_information_request_by_log_id log.id
    build_search_result_for_information_request signed.bridge_id signed.message_id

  unfoldable pub search_executed_information_request : Log → Exec SearchResult
  unfolding build_search_result_for_information_request
  search_executed_information_request log = do
    executed ← get_executed_information_request_by_log_id log.id
    build_search_result_for_information_request executed.bridge_id executed.message_id

  unfoldable pub search_tasks : List (Log → Exec SearchResult)
  unfolding search_sent_message search_signed_message search_executed_message
      search_sent_information_request search_signed_information_request
      search_executed_information_request
  search_tasks =
      search_sent_message ∷ search_signed_message ∷ search_executed_message
      ∷ search_sent_information_request ∷ search_signed_information_request
      ∷ search_executed_information_request ∷ []

abbrev pub result_or_rest :
    Log → Exec (List SearchResult) → Option SearchResult → Exec (List SearchResult)
result_or_rest log rest none = rest
result_or_rest log rest (some res) = lift (ok (with_event log.id res ∷ []))

-- The loop over the tasks of one log, and the loop over the logs.
unfoldable pub first_result : List (Log → Exec SearchResult) → Log → Exec (List SearchResult)
unfolding attempted
first_result [] log = lift (ok [])
first_result (task ∷ tasks) log = do
  res ← attempted (task log)
  result_or_rest log (first_result tasks log) res

module _ (keccak256_text : String → Hash) (cfg : Config) where
  unfoldable pub search_for_messages_in_logs : List Log → Exec (List SearchResult)
  unfolding search_tasks first_result
  search_for_messages_in_logs [] = lift (ok [])
  search_for_messages_in_logs (log ∷ logs) = do
    found ← first_result (search_tasks keccak256_text cfg) log
    rest ← search_for_messages_in_logs logs
    lift (ok (found ++ rest))

  unfoldable pub get_messages : FilterContext → Exec (List SearchResult)
  unfolding search_for_messages_in_logs get_filtered_logs
  get_messages filter = do logs ← get_filtered_logs filter; search_for_messages_in_logs logs
