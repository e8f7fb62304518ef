-- ===== src/Monitor/Handlers/Validators/Removal.antt =====
-- What the two events of the validator set do to the row of a validator.
use tokenbridge_monitor.Base.{
  ℕ, ◌≡◌, refl, ap, ◌∙◌, sym, inl, inr, ◌⊎◌, Option, none, some, find_by, map-eq-some, ◌==◌, nat_eq,
}
use tokenbridge_monitor.Entity.{BridgeValidator, Log, Address}
use tokenbridge_monitor.Repo.Store.{Store}
use tokenbridge_monitor.Repo.Lookup.{find-upsert_found}
use tokenbridge_monitor.Repo.Find.{active_validator, get_active_validator}
use tokenbridge_monitor.Repo.Ensure.Upserts.{upsert_validator, ensure_bridge_validator}
use tokenbridge_monitor.Exec.{
  Session, Result, ok, err, lift, continue, ◌>>=◌, query, unavailable, or_not_found,
}
use tokenbridge_monitor.Exec.Calls.{query_cases, query-store, statement_done}
use tokenbridge_monitor.Monitor.Handlers.{BridgeEventHandler, EventData, argument, address_value}
use tokenbridge_monitor.Monitor.Handlers.Validators.{
  handle_validator_added, handle_validator_removed, remove_found,
}

-- The row that the log made.
abbrev pub row_of : ℕ → Store → Option BridgeValidator
row_of log_id s = find_by (λ r. r.log_id == log_id) s.bridge_validators

row_of-upsert :
    (val v : BridgeValidator) (s t : Store)
    → row_of val.log_id s ≡ some v
    → upsert_validator val s ≡ some t
    → row_of val.log_id t ≡ some (record v { removed_log_id = val.removed_log_id })
unfolding upsert_validator
row_of-upsert val v s t found h =
    let (rows, e, w) = map-eq-some _ _ h in
    let kept : t.bridge_validators ≡ rows = ap (λ (u : Store). u.bridge_validators) (sym w) in
    ap (find_by (λ r. r.log_id == val.log_id)) kept
    ∙ find-upsert_found (λ r. r.log_id == val.log_id)
        (λ r. record r { removed_log_id = val.removed_log_id }) (λ r. refl) _ val v
        s.bridge_validators rows found e

ensure_bridge_validator-row_of :
    (val v : BridgeValidator) (s s' : Session)
    → row_of val.log_id s.store ≡ some v
    → ensure_bridge_validator val s ≡ (ok tt, s')
    → row_of val.log_id s'.store ≡ some (record v { removed_log_id = val.removed_log_id })
unfolding ensure_bridge_validator
ensure_bridge_validator-row_of val v s s' found h =
    row_of-upsert val v s.store s'.store found (statement_done (upsert_validator val) s s' h)

module _ (p : BridgeEventHandler) (log : Log) (args : EventData) (addr : Address)
    (v : BridgeValidator) (s s' : Session) where
  -- A second run of HandleValidatorAdded on a log whose row is there empties `removed_log_id` of that
  -- row, provided that it succeeds: where the validator was removed in between, the row is active again.
  pub handle_validator_added_again :
      argument "validator" args ≡ some (address_value addr)
      → row_of log.id s.store ≡ some v
      → handle_validator_added p log args s ≡ (ok tt, s')
      → row_of log.id s'.store ≡ some (record v { removed_log_id = none })
  unfolding handle_validator_added ◌>>=◌ lift continue
  handle_validator_added_again a found h = ensure_bridge_validator-row_of _ v s s' found (rw a at h)

  remove_found-row_of :
      (r : Result BridgeValidator) (t : Session)
      → (r ≡ err unavailable) ⊎ (r ≡ ok v)
      → row_of v.log_id t.store ≡ some v
      → remove_found p log.id r t ≡ (ok tt, s')
      → row_of v.log_id s'.store ≡ some (record v { removed_log_id = some log.id })
  unfolding lift
  remove_found-row_of r t (inl e) found h = absurd (cc (ap (λ q. q.0) (rw e at h)))
  remove_found-row_of r t (inr e) found h =
      ensure_bridge_validator-row_of _ v t s' found (rw e at h)

  -- HandleValidatorRemoved puts the id of its log into the row of the validator that was active,
  -- provided that it succeeds and that no other row is of the same log as that one.
  pub handle_validator_removed_lem :
      argument "validator" args ≡ some (address_value addr)
      → active_validator p.bridge_id log.chain_id addr s.store ≡ some v
      → row_of v.log_id s.store ≡ some v
      → handle_validator_removed p log args s ≡ (ok tt, s')
      → row_of v.log_id s'.store ≡ some (record v { removed_log_id = some log.id })
  unfolding handle_validator_removed ◌>>=◌ lift continue get_active_validator
  handle_validator_removed_lem a active found h =
      let f = λ (t : Store). or_not_found (active_validator p.bridge_id log.chain_id addr t) in
      let asked : ((query f s).0 ≡ err unavailable) ⊎ ((query f s).0 ≡ ok v) =
        elim (query_cases f s) [ inl e ↦ inl e | inr e ↦ inr (e ∙ ap or_not_found active) ] in
      remove_found-row_of (query f s).0 (query f s).1 asked (rw (query-store f s) found) (rw a at h)
