-- ===== src/Monitor/Alerts/Manager.antt =====
-- alert_manager.go and job.go: a job for each alert that the bridge has configured, and one run of a
-- job. The rows that a job finds become the values of its gauge.
pub mod Known
pub mod Jobs
use tokenbridge_monitor.Base.{
  ℕ, String, Bool, true, false, Option, none, some, List, [], ◌∷◌, map, ◌==◌, string_eq,
  if◌then◌else◌,
}
use tokenbridge_monitor.Config.{BridgeConfig, BridgeAlertConfig}
use tokenbridge_monitor.Exec.{Result, ok, err, panic, unknown_alert, Exec, lift, ◌>>=◌}
use tokenbridge_monitor.Monitor.Alerts.Tables.{AlertJobParams}
use tokenbridge_monitor.Monitor.Alerts.Unknown.{
  UnknownConfirmation, UnknownExecution, UnknownInformationSignature, UnknownInformationExecution,
  UnknownErcToNativeExecution, find_unknown_confirmations, find_unknown_executions,
  find_unknown_information_signatures, find_unknown_information_executions,
  find_unknown_erc_to_native_confirmations, find_unknown_erc_to_native_executions,
}
use tokenbridge_monitor.Monitor.Alerts.Failed.{
  FailedExecution, FailedInformationRequest, find_failed_executions,
  find_failed_information_requests,
}
use tokenbridge_monitor.Monitor.Alerts.Stuck.{StuckMessage, find_stuck_messages}
use tokenbridge_monitor.Monitor.Alerts.StuckTransfers.{
  StuckErcToNativeMessage, find_stuck_erc_to_native_messages,
}
use tokenbridge_monitor.Monitor.Alerts.Requests.{
  StuckInformationRequest, DifferentInformationSignature, find_stuck_information_requests,
  find_different_information_signatures,
}
use tokenbridge_monitor.Monitor.Alerts.Activity.{
  LastValidatorActivity, find_last_validator_activity,
}

-- The `interface{}` that a job's function returns.
pub data AlertValues : Type 0 where
  unknown_confirmations : List UnknownConfirmation → AlertValues
  unknown_executions : List UnknownExecution → AlertValues
  stuck_messages : List StuckMessage → AlertValues
  failed_executions : List FailedExecution → AlertValues
  unknown_information_signatures : List UnknownInformationSignature → AlertValues
  unknown_information_executions : List UnknownInformationExecution → AlertValues
  stuck_information_requests : List StuckInformationRequest → AlertValues
  failed_information_requests : List FailedInformationRequest → AlertValues
  different_information_signatures : List DifferentInformationSignature → AlertValues
  unknown_erc_to_native_executions : List UnknownErcToNativeExecution → AlertValues
  stuck_erc_to_native_messages : List StuckErcToNativeMessage → AlertValues
  last_validator_activity : List LastValidatorActivity → AlertValues

abbrev pub JobFunc : Type 0
JobFunc = AlertJobParams → Exec AlertValues

abbrev as_values : {A : Type 0} → (A → AlertValues) → (AlertJobParams → Exec A) → JobFunc
as_values f find params = do rows ← find params; lift (ok (f rows))

-- The cases of the switch, by their names.
abbrev pub job_funcs : List (String × JobFunc)
job_funcs =
    (
      "unknown_message_confirmation",
      as_values (λ r. unknown_confirmations r) find_unknown_confirmations,
    )
    ∷ ("unknown_message_execution", as_values (λ r. unknown_executions r) find_unknown_executions)
    ∷ ("stuck_message_confirmation", as_values (λ r. stuck_messages r) find_stuck_messages)
    ∷ ("failed_message_execution", as_values (λ r. failed_executions r) find_failed_executions)
    ∷ (
      "unknown_information_signature",
      as_values (λ r. unknown_information_signatures r) find_unknown_information_signatures,
    )
    ∷ (
      "unknown_information_execution",
      as_values (λ r. unknown_information_executions r) find_unknown_information_executions,
    )
    ∷ (
      "stuck_information_request",
      as_values (λ r. stuck_information_requests r) find_stuck_information_requests,
    )
    ∷ (
      "failed_information_request",
      as_values (λ r. failed_information_requests r) find_failed_information_requests,
    )
    ∷ (
      "different_information_signatures",
      as_values (λ r. different_information_signatures r) find_different_information_signatures,
    )
    ∷ (
      "unknown_erc_to_native_message_confirmation",
      as_values (λ r. unknown_confirmations r) find_unknown_erc_to_native_confirmations,
    )
    ∷ (
      "unknown_erc_to_native_message_execution",
      as_values (λ r. unknown_erc_to_native_executions r) find_unknown_erc_to_native_executions,
    )
    ∷ (
      "stuck_erc_to_native_message_confirmation",
      as_values (λ r. stuck_erc_to_native_messages r) find_stuck_erc_to_native_messages,
    )
    ∷ (
      "last_validator_activity",
      as_values (λ r. last_validator_activity r) find_last_validator_activity,
    )
    ∷ []

abbrev pub find_job : List (String × JobFunc) → String → Option JobFunc
find_job [] name = none
find_job ((n, func) ∷ jobs) name =
    let rest = find_job jobs name in if n == name then some func else rest

pub record Job : Type 0 where
  pub func : JobFunc
  pub params : AlertJobParams

abbrev pub job_params : BridgeConfig → BridgeAlertConfig → AlertJobParams
job_params cfg alert = record {
  bridge = cfg.id;
  home_chain_id = cfg.home.chain.chain_id;
  home_start_block_number = alert.home_start_block;
  home_bridge_address = cfg.home.address;
  home_whitelisted_senders = cfg.home.whitelisted_senders;
  foreign_chain_id = cfg.foreign.chain.chain_id;
  foreign_start_block_number = alert.foreign_start_block;
  foreign_bridge_address = cfg.foreign.address;
}

-- An alert without a section is a nil pointer that is read.
abbrev pub new_job : BridgeConfig → Option JobFunc → Option BridgeAlertConfig → Result Job
new_job cfg none alert = err unknown_alert
new_job cfg (some func) none = panic
new_job cfg (some func) (some alert) = ok (record { func = func; params = job_params cfg alert })

abbrev pub with_job :
    String → Result Job → Result (List (String × Job)) → Result (List (String × Job))
with_job name (ok job) (ok jobs) = ok ((name, job) ∷ jobs)
with_job name (ok job) (err e) = err e
with_job name (ok job) panic = panic
with_job name (err e) rest = err e
with_job name panic rest = panic

abbrev pub new_jobs :
    BridgeConfig → List (String × Option BridgeAlertConfig) → Result (List (String × Job))
new_jobs cfg [] = ok []
new_jobs cfg ((name, alert) ∷ alerts) =
    with_job name (new_job cfg (find_job job_funcs name) alert) (new_jobs cfg alerts)

unfoldable pub new_alert_manager : BridgeConfig → Result (List (String × Job))
new_alert_manager cfg = new_jobs cfg cfg.alerts

-- A run is skipped while the bridge is not synchronized.
unfoldable pub execute : Job → Bool → Exec (Option AlertValues)
execute job is_synced =
    if is_synced then (do alerts ← job.func job.params; lift (ok (some alerts))) else lift (ok none)
