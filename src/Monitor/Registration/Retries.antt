-- ===== src/Monitor/Registration/Retries.antt =====
-- The batches of an AMB bridge may be retried, those that change its validators left aside.
use tokenbridge_monitor.Base.{
  ℕ, ◌≤◌, ◌≡◌, refl, sym, ap, ◌∙◌, ◌⊎◌, inl, inr, Bool, true, false, ◌||◌, String, List, [], ◌∷◌,
  All, ◌==◌, string_eq, Bool-cases,
}
use tokenbridge_monitor.Entity.{Log}
use tokenbridge_monitor.Contract.Abi.{parse_log}
use tokenbridge_monitor.Contract.Events.{validator_added, validator_removed}
use tokenbridge_monitor.Repo.Store.{Store}
use tokenbridge_monitor.Exec.{Session, Result, ok, err, panic}
use tokenbridge_monitor.Exec.Retryable.{Retryable, Retryable-lift, clean, failures}
use tokenbridge_monitor.Exec.Retry.{finished, retry}
use tokenbridge_monitor.Monitor.Handlers.{BridgeEventHandler, EventData, EventHandler}
use tokenbridge_monitor.Monitor.Handlers.Retries.{
  IsRetryable, user_request_for_affirmation-IsRetryable, user_request_for_signature-IsRetryable,
  legacy_user_request_for_affirmation-IsRetryable, legacy_user_request_for_signature-IsRetryable,
  signed_for_user_request-IsRetryable, relayed_message-IsRetryable,
  affirmation_completed-IsRetryable, collected_signatures-IsRetryable,
  user_request_for_information-IsRetryable, signed_for_information-IsRetryable,
  information_retrieved-IsRetryable,
}
use tokenbridge_monitor.Monitor.ContractMonitor.{Contract, register_event_handler}
use tokenbridge_monitor.Monitor.ContractMonitor.Batches.{
  handler_of, handle_event, try_to_process_logs,
}
use tokenbridge_monitor.Monitor.ContractMonitor.Batches.Retries.{MayRepeat, process_logs_retried}
use tokenbridge_monitor.Monitor.Registration.{
  Monitor, register_all, amb_home_handlers, amb_foreign_handlers, register_amb_event_handlers,
}

abbrev pub of_validators : String → Bool
of_validators event = event == validator_added || event == validator_removed

-- The log is of ValidatorAdded or ValidatorRemoved.
abbrev pub is_change : Result (String × EventData) → Bool
is_change (ok (event, _)) = of_validators event
is_change (err _) = false
is_change panic = false

abbrev pub changes_validators : Contract → Log → Bool
changes_validators c log = is_change (parse_log c.abi log)

abbrev Settled : String × EventHandler → Type 0
Settled (event, handle) = (of_validators event ≡ true) ⊎ IsRetryable handle

module _ (p : BridgeEventHandler) where
  amb_home_Settled : All Settled (amb_home_handlers p)
  amb_home_Settled = (
    inr (user_request_for_signature-IsRetryable p),
    (
      inr (legacy_user_request_for_signature-IsRetryable p),
      (
        inr (signed_for_user_request-IsRetryable p),
        (
          inr (collected_signatures-IsRetryable p),
          (
            inr (signed_for_user_request-IsRetryable p),
            (
              inr (affirmation_completed-IsRetryable p),
              (
                inr (affirmation_completed-IsRetryable p),
                (
                  inr (user_request_for_information-IsRetryable p),
                  (
                    inr (signed_for_information-IsRetryable p),
                    (inr (information_retrieved-IsRetryable p), (inl refl, (inl refl, tt))),
                  ),
                ),
              ),
            ),
          ),
        ),
      ),
    ),
  )

  amb_foreign_Settled : All Settled (amb_foreign_handlers p)
  amb_foreign_Settled = (
    inr (user_request_for_affirmation-IsRetryable p),
    (
      inr (legacy_user_request_for_affirmation-IsRetryable p),
      (
        inr (relayed_message-IsRetryable p),
        (inr (relayed_message-IsRetryable p), (inl refl, (inl refl, tt))),
      ),
    ),
  )

register_all-Settled :
    (table : List (String × EventHandler)) (c : Contract)
    → All Settled table
    → All Settled c.event_handlers
    → All Settled (register_all table c).event_handlers
unfolding register_all register_event_handler
register_all-Settled [] c h k = k
register_all-Settled ((event, handle) ∷ table) c h k =
    register_all-Settled table (register_event_handler event handle c) h.1 (h.0, k)

handler_of-Retryable :
    (table : List (String × EventHandler)) (event : String) (log : Log) (values : EventData)
    → All Settled table
    → of_validators event ≡ false
    → Retryable (handle_event (handler_of table event) log values)
handler_of-Retryable [] event log values h n = Retryable-lift (ok tt)
handler_of-Retryable ((e, handle) ∷ table) event log values (inl change, h) n =
    elim (Bool-cases (e == event)) [
      | inl hit ↦ absurd (cc (change, n, (string_eq.same_iff e event).0 hit))
      | inr miss ↦ rw miss (handler_of-Retryable table event log values h n)
    ]
handler_of-Retryable ((e, handle) ∷ table) event log values (inr repeats, h) n =
    elim (Bool-cases (e == event)) [
      | inl hit ↦ rw hit (repeats log values)
      | inr miss ↦ rw miss (handler_of-Retryable table event log values h n)
    ]

Settled-MayRepeat :
    (c : Contract) (logs : List Log)
    → All Settled c.event_handlers
    → All (λ log. changes_validators c log ≡ false) logs
    → All (MayRepeat c) logs
Settled-MayRepeat c [] h n = tt
Settled-MayRepeat c (log ∷ logs) h n = (
  λ event values e.
      handler_of-Retryable c.event_handlers event log values h (sym (ap is_change e) ∙ n.0),
  Settled-MayRepeat c logs h n.1,
)

either_side :
    (p : BridgeEventHandler) (m : Monitor) (c : Contract)
    → m.home_monitor.event_handlers ≡ []
    → m.foreign_monitor.event_handlers ≡ []
    → (c ≡ (register_amb_event_handlers p m).home_monitor)
      ⊎ (c ≡ (register_amb_event_handlers p m).foreign_monitor)
    → All Settled c.event_handlers
unfolding register_amb_event_handlers
either_side p m c h f (inl e) =
    rw e (register_all-Settled (amb_home_handlers p) m.home_monitor (amb_home_Settled p) (rw h tt))
either_side p m c h f (inr e) = rw e (
    register_all-Settled (amb_foreign_handlers p) m.foreign_monitor (amb_foreign_Settled p)
      (rw f tt))

-- On either side of a bridge for which NewMonitor has registered the AMB handlers, a batch with no
-- log of ValidatorAdded or ValidatorRemoved may be retried: if a run in which no call fails would
-- succeed, and the context is not cancelled and lives through one wait for each call that fails,
-- then the retries end with success and the database holds what that run would write.
pub amb_batch_retried :
    (p : BridgeEventHandler) (m : Monitor) (c : Contract) (logs : List Log) (waits : ℕ)
    (s : Session) (t : Store)
    → m.home_monitor.event_handlers ≡ []
    → m.foreign_monitor.event_handlers ≡ []
    → (c ≡ (register_amb_event_handlers p m).home_monitor)
      ⊎ (c ≡ (register_amb_event_handlers p m).foreign_monitor)
    → All (λ log. changes_validators c log ≡ false) logs
    → try_to_process_logs c logs (clean s.store) ≡ (ok tt, clean t)
    → s.cancelled ≡ false
    → failures s.faults ≤ waits
    → ((retry waits (try_to_process_logs c logs) s).0 ≡ finished tt)
      × ((retry waits (try_to_process_logs c logs) s).1.store ≡ t)
      × ((retry waits (try_to_process_logs c logs) s).1.cancelled ≡ false)
amb_batch_retried p m c logs waits s t h f side n =
    process_logs_retried c logs waits s t (Settled-MayRepeat c logs (either_side p m c h f side) n)
