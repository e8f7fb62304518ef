-- ===== src/Presenter/ReadOnly/Searching.antt =====
-- The searches of the presenter only read.
use tokenbridge_monitor.Base.{
  ℕ, String, Bool, true, false, Option, none, some, List, [], ◌∷◌, All, if◌then◌else◌,
}
use tokenbridge_monitor.Entity.{Hash, Log, InformationRequest}
use tokenbridge_monitor.Config.{BridgeMode, erc_to_native, arbitrary_message, other}
use tokenbridge_monitor.Config.Init.{Config}
use tokenbridge_monitor.Exec.{Exec}
use tokenbridge_monitor.Exec.ReadOnly.{ReadOnly, ReadOnly-lift, ReadOnly-query, ReadOnly-bind}
use tokenbridge_monitor.Repo.Find.{find_logs, get_log_by_id, get_block_timestamp}
use tokenbridge_monitor.Repo.Reads.{
  BridgeMessage, get_message_by_msg_hash, get_message_by_message_id, get_erc_to_native_message,
  get_sent_message, find_signed_messages, get_collected_message, get_executed_message,
  get_information_request, get_sent_information_request, find_signed_information_requests,
  get_executed_information_request, find_pending_messages, get_sent_message_by_log_id,
  get_signed_message_by_log_id, get_executed_message_by_log_id,
  get_sent_information_request_by_log_id, get_signed_information_request_by_log_id,
  get_executed_information_request_by_log_id,
}
use tokenbridge_monitor.Presenter.Types.{SearchResult, EventInfo}
use tokenbridge_monitor.Presenter.Events.{
  optional, get_tx_info, enrich_events, build_message_events, build_information_request_events,
}
use tokenbridge_monitor.Presenter.Search.{
  FilterContext, amb_or_erc, result_or_rest, attempted, get_filtered_logs, get_logs, get_messages,
  find_bridge_message, build_search_result_for_message, build_search_result_for_information_request,
  search_sent_message, search_signed_message, search_executed_message,
  search_sent_information_request, search_signed_information_request,
  search_executed_information_request, search_tasks, first_result, search_for_messages_in_logs,
}

pub ReadOnly-optional : {A : Type 0} (m : Exec A) → ReadOnly m → ReadOnly (optional m)
unfolding optional
ReadOnly-optional m km = record { at = km.at }

pub ReadOnly-attempted : {A : Type 0} (m : Exec A) → ReadOnly m → ReadOnly (attempted m)
unfolding attempted
ReadOnly-attempted m km = record { at = km.at }

pub ReadOnly-if :
    {A : Type 0} (b : Bool) (m n : Exec A) → ReadOnly m → ReadOnly n → ReadOnly (if b then m else n)
ReadOnly-if true m n km kn = km
ReadOnly-if false m n km kn = kn

pub ruleset handler_rules = (
  ReadOnly-lift, ReadOnly-query, ReadOnly-bind, ReadOnly-if, ReadOnly-optional, ReadOnly-attempted,
)

pub ReadOnly-find_pending :
    (id : String) (mode : BridgeMode) → ReadOnly (find_pending_messages id mode)
unfolding find_pending_messages
ReadOnly-find_pending id erc_to_native = ReadOnly-query _
ReadOnly-find_pending id arbitrary_message = ReadOnly-query _
ReadOnly-find_pending id (other _) = ReadOnly-query _

module _ (cfg : Config) where
  pub ReadOnly-get_tx_info : (id : ℕ) → ReadOnly (get_tx_info cfg id)
  unfolding get_tx_info get_log_by_id get_block_timestamp
  ReadOnly-get_tx_info id = search handler_rules depth 12

  ReadOnly-enrich_events : (events : List EventInfo) → ReadOnly (enrich_events cfg events)
  unfolding enrich_events
  ReadOnly-enrich_events [] = search handler_rules depth 12
  ReadOnly-enrich_events (e ∷ es) =
      ReadOnly-bind _ _ (ReadOnly-get_tx_info e.log_id)
        λ _. ReadOnly-bind _ _ (ReadOnly-enrich_events es) λ _. ReadOnly-lift _

  ReadOnly-build_message_events :
      (id : String) (h h' : Hash) → ReadOnly (build_message_events cfg id h h')
  unfolding build_message_events get_sent_message find_signed_messages get_collected_message
      get_executed_message
  ReadOnly-build_message_events id h h' = search (handler_rules, ReadOnly-enrich_events) depth 20

  ReadOnly-build_information_request_events :
      (req : InformationRequest) → ReadOnly (build_information_request_events cfg req)
  unfolding build_information_request_events get_sent_information_request
      find_signed_information_requests get_executed_information_request
  ReadOnly-build_information_request_events req =
      search (handler_rules, ReadOnly-enrich_events) depth 20

ReadOnly-amb_or_erc :
    (id : String) (h : Hash) (o : Option BridgeMessage) → ReadOnly (amb_or_erc id h o)
unfolding get_erc_to_native_message
ReadOnly-amb_or_erc id h none = search handler_rules depth 12
ReadOnly-amb_or_erc id h (some m) = search handler_rules depth 12

ReadOnly-find_bridge_message :
    (id : String) (o o' : Option Hash) → ReadOnly (find_bridge_message id o o')
unfolding find_bridge_message get_message_by_msg_hash get_message_by_message_id
ReadOnly-find_bridge_message id none none = search handler_rules depth 12
ReadOnly-find_bridge_message id (some h) o' =
    ReadOnly-bind _ _ (search handler_rules depth 12) λ _. ReadOnly-amb_or_erc id h _
ReadOnly-find_bridge_message id none (some h) =
    ReadOnly-bind _ _ (search handler_rules depth 12) λ _. ReadOnly-amb_or_erc id h _

ReadOnly-result_or_rest :
    (log : Log) (rest : Exec (List SearchResult)) (o : Option SearchResult)
    → ReadOnly rest
    → ReadOnly (result_or_rest log rest o)
ReadOnly-result_or_rest log rest none k = k
ReadOnly-result_or_rest log rest (some res) k = ReadOnly-lift _

module _ (keccak256_text : String → Hash) (cfg : Config) where
  ReadOnly-for_message :
      (id : String) (o o' : Option Hash)
      → ReadOnly (build_search_result_for_message keccak256_text cfg id o o')
  unfolding build_search_result_for_message
  ReadOnly-for_message id o o' =
      search (handler_rules, ReadOnly-find_bridge_message, ReadOnly-build_message_events) depth 12

  ReadOnly-for_information_request :
      (id : String) (h : Hash)
      → ReadOnly (build_search_result_for_information_request keccak256_text cfg id h)
  unfolding build_search_result_for_information_request get_information_request
  ReadOnly-for_information_request id h =
      search (handler_rules, ReadOnly-build_information_request_events) depth 12

  abbrev ReadOnlyTasks : List (Log → Exec SearchResult) → Type 0
  ReadOnlyTasks tasks = All (λ task. (log : Log) → ReadOnly (task log)) tasks

  ReadOnly-search_tasks : ReadOnlyTasks (search_tasks keccak256_text cfg)
  unfolding search_tasks search_sent_message search_signed_message search_executed_message
      search_sent_information_request search_signed_information_request
      search_executed_information_request get_sent_message_by_log_id get_signed_message_by_log_id
      get_executed_message_by_log_id get_sent_information_request_by_log_id
      get_signed_information_request_by_log_id get_executed_information_request_by_log_id
  ReadOnly-search_tasks = (
    (λ log. search (handler_rules, ReadOnly-for_message) depth 12),
    (
      (λ log. search (handler_rules, ReadOnly-for_message) depth 12),
      (
        (λ log. search (handler_rules, ReadOnly-for_message) depth 12),
        (
          (λ log. search (handler_rules, ReadOnly-for_information_request) depth 12),
          (
            (λ log. search (handler_rules, ReadOnly-for_information_request) depth 12),
            ((λ log. search (handler_rules, ReadOnly-for_information_request) depth 12), tt),
          ),
        ),
      ),
    ),
  )

  ReadOnly-first_result :
      (tasks : List (Log → Exec SearchResult)) (log : Log)
      → ReadOnlyTasks tasks
      → ReadOnly (first_result tasks log)
  unfolding first_result
  ReadOnly-first_result [] log k = ReadOnly-lift _
  ReadOnly-first_result (task ∷ tasks) log k =
      ReadOnly-bind _ _ (ReadOnly-attempted (task log) (k.0 log))
        λ o. ReadOnly-result_or_rest log _ o (ReadOnly-first_result tasks log k.1)

  ReadOnly-search_for_messages_in_logs :
      (logs : List Log) → ReadOnly (search_for_messages_in_logs keccak256_text cfg logs)
  unfolding search_for_messages_in_logs
  ReadOnly-search_for_messages_in_logs [] = ReadOnly-lift _
  ReadOnly-search_for_messages_in_logs (log ∷ logs) =
      ReadOnly-bind _ _
        (ReadOnly-first_result (search_tasks keccak256_text cfg) log ReadOnly-search_tasks)
        λ _. ReadOnly-bind _ _ (ReadOnly-search_for_messages_in_logs logs) λ _. ReadOnly-lift _

  pub ReadOnly-get_messages :
      (filter : FilterContext) → ReadOnly (get_messages keccak256_text cfg filter)
  unfolding get_messages get_filtered_logs find_logs
  ReadOnly-get_messages filter =
      search (handler_rules, ReadOnly-search_for_messages_in_logs) depth 12

pub ReadOnly-get_logs : (filter : FilterContext) → ReadOnly (get_logs filter)
unfolding get_logs get_filtered_logs find_logs
ReadOnly-get_logs filter = search handler_rules depth 12
