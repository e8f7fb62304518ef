-- ===== src/Monitor/Alerts/Unknown/Recorded.antt =====
-- Which confirmations and executions the alerts report.
use tokenbridge_monitor.Base.{
  ℕ, ◌≡◌, ap, Bool, not, ◌&&◌, some, map, any, filter_by, ◌==◌, string_eq, bytes_eq,
}
use tokenbridge_monitor.Entity.{SignedMessage, ExecutedMessage}
use tokenbridge_monitor.Repo.Store.{Store}
use tokenbridge_monitor.Repo.Join.{unmatched-left_join}
use tokenbridge_monitor.Exec.{ok, query, continue, ◌>>=◌}
use tokenbridge_monitor.Exec.Retryable.{clean}
use tokenbridge_monitor.Monitor.Alerts.Tables.{
  AlertJobParams, row_of, located, find_min_processed_time, minimum, processed_times,
}
use tokenbridge_monitor.Monitor.Alerts.Unknown.{
  counted_confirmation, unknown_confirmation, find_unknown_confirmations, counted_execution,
  unknown_execution, find_unknown_executions,
}

-- The message of a signature, and of an execution, is recorded on the same bridge.
abbrev pub confirms_recorded : Store → SignedMessage → Bool
confirms_recorded s sm =
    any (λ m. sm.bridge_id == m.bridge_id && m.msg_hash == sm.msg_hash) s.messages

abbrev pub executes_recorded : Store → ExecutedMessage → Bool
executes_recorded s em =
    any (λ m. em.bridge_id == m.bridge_id && em.message_id == m.message_id) s.messages

module _ (params : AlertJobParams) (s : Store) (t : ℕ) where
  -- Where the database answers and both sides are processed up to the time `t`, the alert for unknown
  -- confirmations reports those signatures of the bridge, on the home side, from the start block on
  -- and not after `t`, whose message is not recorded on the bridge; the alert for unknown executions
  -- reports the like executions on either side. So neither reports one whose message is recorded.
  pub find_unknown_lem :
      minimum (processed_times params s) ≡ some t
      → (find_unknown_confirmations params (clean s) ≡ (
        ok (
            map unknown_confirmation (
              filter_by
                (λ r. counted_confirmation params t r && not (confirms_recorded s (row_of r)))
                (located (λ sm. sm.log_id) s s.signed_messages))),
        clean s,
      ))
        × (find_unknown_executions params (clean s) ≡ (
          ok (
              map unknown_execution (
                filter_by
                  (λ r. counted_execution params t r && not (executes_recorded s (row_of r)))
                  (located (λ em. em.log_id) s s.executed_messages))),
          clean s,
        ))
  unfolding find_unknown_confirmations find_unknown_executions find_min_processed_time query
      continue ◌>>=◌
  find_unknown_lem processed = (
    rw processed (
        ap (λ rows. (ok (map unknown_confirmation rows), clean s))
          (unmatched-left_join (counted_confirmation params t) _ _ s.messages)),
    rw processed (
        ap (λ rows. (ok (map unknown_execution rows), clean s))
          (unmatched-left_join (counted_execution params t) _ _ s.messages)),
  )
