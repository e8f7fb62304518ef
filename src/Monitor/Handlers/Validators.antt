-- ===== src/Monitor/Handlers/Validators.antt =====
-- The handlers of the validator set, which both kinds of bridges share.
pub mod Removal
use tokenbridge_monitor.Base.{ℕ, none, some}
use tokenbridge_monitor.Entity.{BridgeValidator}
use tokenbridge_monitor.Exec.{Exec, Error, Result, ok, err, panic, not_found, lift, ◌>>=◌}
use tokenbridge_monitor.Repo.Find.{get_active_validator}
use tokenbridge_monitor.Repo.Ensure.Upserts.{ensure_bridge_validator}
use tokenbridge_monitor.Monitor.Handlers.{BridgeEventHandler, EventHandler, argument, as_address}

-- db/errors.go, IgnoreErrNotFound
abbrev pub ignore_err_not_found : Error → Result (Unit {0})
ignore_err_not_found not_found = ok tt
ignore_err_not_found e = err e

module _ (p : BridgeEventHandler) where
  unfoldable pub handle_validator_added : EventHandler
  handle_validator_added log args = do
    validator ← lift (as_address (argument "validator" args))
    ensure_bridge_validator (record {
      log_id = log.id;
      bridge_id = p.bridge_id;
      chain_id = log.chain_id;
      address = validator;
      removed_log_id = none;
    })

  -- What follows the query for the validator, whose error may be that there is none.
  abbrev remove_found : ℕ → Result BridgeValidator → Exec Unit
  remove_found log_id (ok val) =
      ensure_bridge_validator (record val { removed_log_id = some log_id })
  remove_found log_id (err e) = lift (ignore_err_not_found e)
  remove_found log_id panic = lift panic

  unfoldable pub handle_validator_removed : EventHandler
  handle_validator_removed log args = do
    validator ← lift (as_address (argument "validator" args))
    λ s.
        let (r, s') = get_active_validator p.bridge_id log.chain_id validator s in
        remove_found log.id r s'
