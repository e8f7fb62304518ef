-- ===== src/Monitor/ContractMonitor/Batches/Retries.antt =====
-- A batch is handled until it succeeds, with the rows of one run in which no call fails; and the
-- cursor is not saved for a batch that was not handled.
use tokenbridge_monitor.Base.{ℕ, ◌≤◌, ◌≡◌, refl, false, String, List, [], ◌∷◌, All}
use tokenbridge_monitor.Entity.{Log}
use tokenbridge_monitor.Contract.Abi.{parse_log}
use tokenbridge_monitor.Repo.Store.{Store}
use tokenbridge_monitor.Exec.{Session, Exec, Result, ok, err, panic, lift, ◌>>=◌, continue}
use tokenbridge_monitor.Exec.Retryable.{Retryable, Retryable-lift, Retryable-bind, clean, failures}
use tokenbridge_monitor.Exec.Retry.{finished, retry, retry-Finishes}
use tokenbridge_monitor.Monitor.Handlers.{EventData}
use tokenbridge_monitor.Monitor.ContractMonitor.{Contract}
use tokenbridge_monitor.Monitor.ContractMonitor.Batches.{
  handler_of, handle_event, try_to_process_logs,
}

-- Whatever event the log is of, its handler may be repeated.
abbrev pub MayRepeat : Contract → Log → Type 0
MayRepeat c log =
    (event : String) (values : EventData)
    → parse_log c.abi log ≡ ok (event, values)
    → Retryable (handle_event (handler_of c.event_handlers event) log values)

-- What follows a value has to be repeatable for that value only.
Retryable-lift_bind :
    {A B : Type 0} (r : Result A) (f : A → Exec B)
    → ((a : A) → r ≡ ok a → Retryable (f a))
    → Retryable (lift r >>= f)
unfolding ◌>>=◌ lift continue
Retryable-lift_bind (ok a) f h = h a refl
Retryable-lift_bind (err e) f h = unfold lift in Retryable-lift (err e)
Retryable-lift_bind panic f h = unfold lift in Retryable-lift panic

pub try_to_process_logs-Retryable :
    (c : Contract) (logs : List Log)
    → All (MayRepeat c) logs
    → Retryable (try_to_process_logs c logs)
unfolding try_to_process_logs
try_to_process_logs-Retryable c [] h = Retryable-lift (ok tt)
try_to_process_logs-Retryable c (log ∷ logs) h =
    Retryable-lift_bind (parse_log c.abi log) _ λ parsed e.
      Retryable-bind _ _ (h.0 parsed.0 parsed.1 e) λ _. try_to_process_logs-Retryable c logs h.1

-- If the handlers of the events of a batch may be repeated, the context is not cancelled and lives
-- through one wait for each call that fails, and a run of the batch in which no call fails would
-- succeed, then the retries of the batch end with success, and the database holds what that run
-- would write.
pub process_logs_retried :
    (c : Contract) (logs : List Log) (waits : ℕ) (s : Session) (t : Store)
    → All (MayRepeat c) logs
    → try_to_process_logs c logs (clean s.store) ≡ (ok tt, clean t)
    → s.cancelled ≡ false
    → failures s.faults ≤ waits
    → ((retry waits (try_to_process_logs c logs) s).0 ≡ finished tt)
      × ((retry waits (try_to_process_logs c logs) s).1.store ≡ t)
      × ((retry waits (try_to_process_logs c logs) s).1.cancelled ≡ false)
process_logs_retried c logs waits s t h =
    retry-Finishes (try_to_process_logs c logs) (try_to_process_logs-Retryable c logs h) tt t waits
      s
