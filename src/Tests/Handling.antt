-- ===== src/Tests/Handling.antt =====
-- Handlers, batches and their retries.
use tokenbridge_monitor.Base.{◌≡◌, refl, ap, arith, true, false, some, List, [], ◌∷◌, inl}
use tokenbridge_monitor.Entity.{Log}
use tokenbridge_monitor.Entity.Logs.{topics}
use tokenbridge_monitor.Contract.Abi.{parse_log, find_matching_event_abi}
use tokenbridge_monitor.Contract.Events.{signed_for_user_request}
use tokenbridge_monitor.Repo.Store.{Store}
use tokenbridge_monitor.Repo.Table.{upsert_row, insert_row}
use tokenbridge_monitor.Repo.Growing.{insert_into}
use tokenbridge_monitor.Repo.Find.{active_validator, get_active_validator, get_block_timestamp}
use tokenbridge_monitor.Repo.Ensure.{ensure_signed_message}
use tokenbridge_monitor.Repo.Ensure.Upserts.{
  upsert_validator, ensure_bridge_validator, ensure_block_timestamp,
}
use tokenbridge_monitor.Exec.{Session, ok, lift, continue, ◌>>=◌, call, query, statement}
use tokenbridge_monitor.Exec.Retryable.{clean}
use tokenbridge_monitor.Exec.Retry.{finished, interrupted, retry}
use tokenbridge_monitor.Monitor.Types.{LogsBatch}
use tokenbridge_monitor.Monitor.Handlers.{EventData, address_value, bytes32}
use tokenbridge_monitor.Monitor.Handlers.Amb.{handle_signed_for_user_request}
use tokenbridge_monitor.Monitor.Handlers.Validators.{
  handle_validator_added, handle_validator_removed,
}
use tokenbridge_monitor.Monitor.Handlers.Validators.Removal.{
  row_of, handle_validator_added_again, handle_validator_removed_lem,
}
use tokenbridge_monitor.Monitor.ContractMonitor.{Contract, State}
use tokenbridge_monitor.Monitor.ContractMonitor.Batches.{
  try_to_process_logs, try_to_get_block_timestamp, process_logs_batch,
}
use tokenbridge_monitor.Monitor.ContractMonitor.Batches.Safety.{process_logs_batch_interrupted}
use tokenbridge_monitor.Monitor.Registration.{register_amb_event_handlers}
use tokenbridge_monitor.Monitor.Registration.Retries.{
  amb_batch_retried, changes_validators, is_change,
}
use tokenbridge_monitor.Tests.Values.{
  some_monitor, some_handler, some_state, some_store, some_validator, log_at, session_with,
}

abbrev home : Contract
home = (register_amb_event_handlers some_handler some_monitor).home_monitor

-- SignedForUserRequest
abbrev one_log : List Log
one_log = log_at 3 107 7 ∷ []

abbrev handled : Store
handled = record some_store {
  signed_messages =
      record { log_id = 3; bridge_id = "test-amb"; msg_hash = 6 ∷ []; signer = 5 ∷ [] } ∷ [];
}

abbrev signed_values : EventData
signed_values =
    ("signer", address_value (5 ∷ []))
    ∷ ("messageHash", bytes32 (6 ∷ []))
    ∷ ("validator", address_value (5 ∷ []))
    ∷ []

handled_test : try_to_process_logs home one_log (clean some_store) ≡ (ok tt, clean handled)
unfolding try_to_process_logs register_amb_event_handlers parse_log find_matching_event_abi topics
    handle_signed_for_user_request ensure_signed_message insert_into insert_row lift continue ◌>>=◌
    call statement
handled_test = refl

parsed_test : parse_log home.abi (log_at 3 107 7) ≡ ok (signed_for_user_request, signed_values)
unfolding register_amb_event_handlers parse_log find_matching_event_abi topics
parsed_test = refl

not_validators : changes_validators home (log_at 3 107 7) ≡ false
not_validators = ap is_change parsed_test

-- The first call fails, and the context lives through one wait.
amb_batch_retried_example :
    ((retry 1 (try_to_process_logs home one_log) (session_with (true ∷ []))).0 ≡ finished tt)
    × ((retry 1 (try_to_process_logs home one_log) (session_with (true ∷ []))).1.store ≡ handled)
    × ((retry 1 (try_to_process_logs home one_log) (session_with (true ∷ []))).1.cancelled ≡ false)
amb_batch_retried_example =
    amb_batch_retried some_handler some_monitor home one_log 1 (session_with (true ∷ [])) handled
      refl refl (inl refl) (not_validators, tt) handled_test refl (omega arith)

-- The calls for the timestamp are answered, that of the handler is not.
abbrev interrupted_state : State
interrupted_state = record some_state { session = session_with (false ∷ false ∷ false ∷ true ∷ []) }

abbrev one_batch : LogsBatch
one_batch = record { block_number = 107; logs = one_log }

abbrev stamped : Session
stamped = (retry 0 (try_to_get_block_timestamp home (λ n. ok 1700) 107) interrupted_state.session).1

abbrev stopped : Session
stopped = (retry 0 (try_to_process_logs home one_log) stamped).1

stamped_test :
    retry 0 (try_to_get_block_timestamp home (λ n. ok 1700) 107) interrupted_state.session
    ≡ (finished tt, stamped)
unfolding retry try_to_get_block_timestamp get_block_timestamp ensure_block_timestamp upsert_row
    query statement call continue lift ◌>>=◌ register_amb_event_handlers
stamped_test = refl

stopped_test : retry 0 (try_to_process_logs home one_log) stamped ≡ (interrupted, stopped)
unfolding retry try_to_get_block_timestamp get_block_timestamp ensure_block_timestamp upsert_row
    query statement call continue lift ◌>>=◌ register_amb_event_handlers try_to_process_logs
    parse_log find_matching_event_abi topics handle_signed_for_user_request ensure_signed_message
    insert_into insert_row
stopped_test = refl

process_logs_batch_interrupted_example :
    (process_logs_batch home (λ n. ok 1700) 0 one_batch interrupted_state).1.session ≡ stopped
process_logs_batch_interrupted_example =
    process_logs_batch_interrupted home (λ n. ok 1700) 0 one_batch interrupted_state (finished tt)
      stamped stopped stamped_test (λ e. cc e) stopped_test

abbrev validator_args : EventData
validator_args = ("validator", address_value (5 ∷ [])) ∷ []

abbrev after_removal : Session
after_removal =
    (handle_validator_removed some_handler (log_at 2 105 9) validator_args (session_with [])).1

removal_test :
    handle_validator_removed some_handler (log_at 2 105 9) validator_args (session_with [])
    ≡ (ok tt, after_removal)
unfolding handle_validator_removed get_active_validator active_validator ensure_bridge_validator
    upsert_validator upsert_row query statement call continue lift ◌>>=◌
removal_test = refl

active_test : active_validator "test-amb" "100" (5 ∷ []) some_store ≡ some some_validator
unfolding active_validator
active_test = refl

handle_validator_removed_lem_example :
    row_of 1 after_removal.store ≡ some (record some_validator { removed_log_id = some 2 })
handle_validator_removed_lem_example =
    handle_validator_removed_lem some_handler (log_at 2 105 9) validator_args (5 ∷ [])
      some_validator (session_with []) after_removal refl active_test refl removal_test

-- The row that the removal leaves.
removed_row :
    row_of 1 after_removal.store ≡ some (record some_validator { removed_log_id = some 2 })
unfolding handle_validator_removed get_active_validator active_validator ensure_bridge_validator
    upsert_validator upsert_row query statement call continue lift ◌>>=◌
removed_row = refl

abbrev after_second_run : Session
after_second_run =
    (handle_validator_added some_handler (log_at 1 101 8) validator_args after_removal).1

second_run_test :
    handle_validator_added some_handler (log_at 1 101 8) validator_args after_removal
    ≡ (ok tt, after_second_run)
unfolding handle_validator_removed get_active_validator active_validator ensure_bridge_validator
    upsert_validator upsert_row query statement call continue lift ◌>>=◌ handle_validator_added
second_run_test = refl

handle_validator_added_again_example : row_of 1 after_second_run.store ≡ some some_validator
handle_validator_added_again_example =
    handle_validator_added_again some_handler (log_at 1 101 8) validator_args (5 ∷ [])
      (record some_validator { removed_log_id = some 2 }) after_removal after_second_run refl
      removed_row second_run_test
