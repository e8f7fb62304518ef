-- ===== src/Monitor/Alerts/Manager/Known.antt =====
-- The names of the alerts that NewAlertManager knows, with the queries that they stand for.
use tokenbridge_monitor.Base.{
  ◌≡◌, refl, subst, inl, inr, String, some, List, [], ◌∷◌, All, ◌==◌, string_eq, Bool-cases,
}
use tokenbridge_monitor.Exec.{ok, Exec, lift, ◌>>=◌}
use tokenbridge_monitor.Monitor.Alerts.Tables.{AlertJobParams}
use tokenbridge_monitor.Monitor.Alerts.Unknown.{
  find_unknown_confirmations, find_unknown_executions, find_unknown_information_signatures,
  find_unknown_information_executions, find_unknown_erc_to_native_confirmations,
  find_unknown_erc_to_native_executions,
}
use tokenbridge_monitor.Monitor.Alerts.Failed.{
  find_failed_executions, find_failed_information_requests,
}
use tokenbridge_monitor.Monitor.Alerts.Stuck.{find_stuck_messages}
use tokenbridge_monitor.Monitor.Alerts.StuckTransfers.{find_stuck_erc_to_native_messages}
use tokenbridge_monitor.Monitor.Alerts.Requests.{
  find_stuck_information_requests, find_different_information_signatures,
}
use tokenbridge_monitor.Monitor.Alerts.Activity.{find_last_validator_activity}
use tokenbridge_monitor.Monitor.Alerts.Manager.{
  AlertValues, different_information_signatures, failed_executions, failed_information_requests,
  last_validator_activity, stuck_erc_to_native_messages, stuck_information_requests, stuck_messages,
  unknown_confirmations, unknown_erc_to_native_executions, unknown_executions,
  unknown_information_executions, unknown_information_signatures, JobFunc, job_funcs, find_job,
}

abbrev shows : {A : Type 0} → (A → AlertValues) → (AlertJobParams → Exec A) → JobFunc
shows values find params = do rows ← find params; lift (ok (values rows))

-- The alerts there are, and the query that each of them stands for.
pub data AlertJob : String → JobFunc → Type 0 where
  for_unknown_message_confirmation :
      AlertJob "unknown_message_confirmation"
        (shows (λ r. unknown_confirmations r) find_unknown_confirmations)
  for_unknown_message_execution :
      AlertJob "unknown_message_execution"
        (shows (λ r. unknown_executions r) find_unknown_executions)
  for_stuck_message_confirmation :
      AlertJob "stuck_message_confirmation" (shows (λ r. stuck_messages r) find_stuck_messages)
  for_failed_message_execution :
      AlertJob "failed_message_execution" (shows (λ r. failed_executions r) find_failed_executions)
  for_unknown_information_signature :
      AlertJob "unknown_information_signature"
        (shows (λ r. unknown_information_signatures r) find_unknown_information_signatures)
  for_unknown_information_execution :
      AlertJob "unknown_information_execution"
        (shows (λ r. unknown_information_executions r) find_unknown_information_executions)
  for_stuck_information_request :
      AlertJob "stuck_information_request"
        (shows (λ r. stuck_information_requests r) find_stuck_information_requests)
  for_failed_information_request :
      AlertJob "failed_information_request"
        (shows (λ r. failed_information_requests r) find_failed_information_requests)
  for_different_information_signatures :
      AlertJob "different_information_signatures"
        (shows (λ r. different_information_signatures r) find_different_information_signatures)
  for_unknown_erc_to_native_message_confirmation :
      AlertJob "unknown_erc_to_native_message_confirmation"
        (shows (λ r. unknown_confirmations r) find_unknown_erc_to_native_confirmations)
  for_unknown_erc_to_native_message_execution :
      AlertJob "unknown_erc_to_native_message_execution"
        (shows (λ r. unknown_erc_to_native_executions r) find_unknown_erc_to_native_executions)
  for_stuck_erc_to_native_message_confirmation :
      AlertJob "stuck_erc_to_native_message_confirmation"
        (shows (λ r. stuck_erc_to_native_messages r) find_stuck_erc_to_native_messages)
  for_last_validator_activity :
      AlertJob "last_validator_activity"
        (shows (λ r. last_validator_activity r) find_last_validator_activity)

pub AlertJob-find_job :
    {name : String} {func : JobFunc} → AlertJob name func → find_job job_funcs name ≡ some func
AlertJob-find_job for_unknown_message_confirmation = refl
AlertJob-find_job for_unknown_message_execution = refl
AlertJob-find_job for_stuck_message_confirmation = refl
AlertJob-find_job for_failed_message_execution = refl
AlertJob-find_job for_unknown_information_signature = refl
AlertJob-find_job for_unknown_information_execution = refl
AlertJob-find_job for_stuck_information_request = refl
AlertJob-find_job for_failed_information_request = refl
AlertJob-find_job for_different_information_signatures = refl
AlertJob-find_job for_unknown_erc_to_native_message_confirmation = refl
AlertJob-find_job for_unknown_erc_to_native_message_execution = refl
AlertJob-find_job for_stuck_erc_to_native_message_confirmation = refl
AlertJob-find_job for_last_validator_activity = refl

find_job-All :
    (P : String → JobFunc → Type 0) (table : List (String × JobFunc)) (name : String)
    (func : JobFunc)
    → All (λ e. P e.0 e.1) table
    → find_job table name ≡ some func
    → P name func
find_job-All P [] name func a h = absurd (cc h)
find_job-All P ((n, f) ∷ table) name func a h = elim (Bool-cases (n == name)) [
  | inl hit ↦
      let found : some f ≡ some func = rw hit at h in
      let same : f ≡ func = cc found in
      subst (λ m. P m func) ((string_eq.same_iff n name).0 hit) (subst (P n) same a.0)
  | inr miss ↦ find_job-All P table name func a.1 (rw miss at h)
]

pub find_job-AlertJob :
    (name : String) (func : JobFunc) → find_job job_funcs name ≡ some func → AlertJob name func
find_job-AlertJob name func h =
    find_job-All AlertJob job_funcs name func
      (
        for_unknown_message_confirmation,
        (
          for_unknown_message_execution,
          (
            for_stuck_message_confirmation,
            (
              for_failed_message_execution,
              (
                for_unknown_information_signature,
                (
                  for_unknown_information_execution,
                  (
                    for_stuck_information_request,
                    (
                      for_failed_information_request,
                      (
                        for_different_information_signatures,
                        (
                          for_unknown_erc_to_native_message_confirmation,
                          (
                            for_unknown_erc_to_native_message_execution,
                            (
                              for_stuck_erc_to_native_message_confirmation,
                              (for_last_validator_activity, tt),
                            ),
                          ),
                        ),
                      ),
                    ),
                  ),
                ),
              ),
            ),
          ),
        ),
      )
      h
