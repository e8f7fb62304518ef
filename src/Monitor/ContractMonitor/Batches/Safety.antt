-- ===== src/Monitor/ContractMonitor/Batches/Safety.antt =====
-- The cursor is not saved for a batch that was not handled.
use tokenbridge_monitor.Base.{
  ℕ, zero, suc, ◌≡◌, ◌≢◌, refl, ap, ◌∙◌, sym, true, arith, Bool-cases, inl, inr, ltb,
}
use tokenbridge_monitor.Exec.{Result, ok, err, panic, Session, unavailable}
use tokenbridge_monitor.Exec.Calls.{statement_cancelled}
use tokenbridge_monitor.Exec.Retry.{Ended, finished, interrupted, crashed, retry, retry-Stopped}
use tokenbridge_monitor.Repo.Ensure.Upserts.{ensure_logs_cursor}
use tokenbridge_monitor.Monitor.Types.{LogsBatch}
use tokenbridge_monitor.Monitor.ContractMonitor.{
  Contract, State, save_cursor, record_is_synced, record_processed_block_number,
}
use tokenbridge_monitor.Monitor.ContractMonitor.Batches.{
  try_to_process_logs, try_to_get_block_timestamp, resolve_record, record_loop, process_logs_batch,
  unless_crashed,
}

save_cursor_cancelled :
    (st : State) → st.session.cancelled ≡ true → save_cursor st ≡ (err unavailable, st)
unfolding save_cursor ensure_logs_cursor
save_cursor_cancelled st h =
    ap (λ (p : Result (Unit {0}) × Session). (p.0, record st { session = p.1 }))
      (statement_cancelled _ st.session h)

-- What recordProcessedBlockNumber hands to the database.
abbrev processed_state : ℕ → State → State
processed_state n st =
    record_is_synced
      (record st { logs_cursor = record st.logs_cursor { last_processed_block = n } })

record_processed_cancelled :
    (block_number : ℕ) (st : State)
    → st.session.cancelled ≡ true
    → (record_processed_block_number block_number st).1.session ≡ st.session
unfolding record_processed_block_number
record_processed_cancelled n st h = elim (Bool-cases (ltb n st.logs_cursor.last_processed_block)) [
  | inl old ↦ rw old
  | inr new ↦ rw new (ap (λ p. p.1.session) (save_cursor_cancelled (processed_state n st) h))
]

resolve_record_cancelled :
    (r : Result (Unit {0})) (st : State) (again : State → Ended Unit × State)
    → st.session.cancelled ≡ true
    → (resolve_record r st again).1.session ≡ st.session
resolve_record_cancelled (ok _) st again h = refl
resolve_record_cancelled (err e) st again h = ground arith
resolve_record_cancelled panic st again h = refl

-- With the context cancelled no round of the loop saves the cursor.
record_loop_cancelled :
    (waits block_number : ℕ) (st : State)
    → st.session.cancelled ≡ true
    → (record_loop waits block_number st).1.session ≡ st.session
unfolding record_loop
record_loop_cancelled zero n st h =
    let kept = record_processed_cancelled n st h in
    resolve_record_cancelled _ _ _ (ap (λ (s : Session). s.cancelled) kept ∙ h) ∙ kept
record_loop_cancelled (suc waits) n st h =
    let kept = record_processed_cancelled n st h in
    resolve_record_cancelled _ _ _ (ap (λ (s : Session). s.cancelled) kept ∙ h) ∙ kept

unless_crashed-eq :
    (e : Ended Unit) (st : State) (next : State → Ended Unit × State)
    → e ≢ crashed
    → unless_crashed e st next ≡ next st
unless_crashed-eq (finished _) st next h = refl
unless_crashed-eq interrupted st next h = refl
unless_crashed-eq crashed st next h = absurd (h refl)

-- Where the context is cancelled before the logs of a batch have been handled, and the goroutine
-- for the timestamp did not panic, the session after processLogsBatch, its database included, is
-- the one that the handlers left: the cursor is not saved.
pub process_logs_batch_interrupted :
    (c : Contract) (header_time : ℕ → Result ℕ) (waits : ℕ) (batch : LogsBatch) (st : State)
    (e1 : Ended Unit) (s1 s2 : Session)
    → retry waits (try_to_get_block_timestamp c header_time batch.block_number) st.session
      ≡ (e1, s1)
    → e1 ≢ crashed
    → retry waits (try_to_process_logs c batch.logs) s1 ≡ (interrupted, s2)
    → (process_logs_batch c header_time waits batch st).1.session ≡ s2
unfolding process_logs_batch
process_logs_batch_interrupted c header_time waits batch st e1 s1 s2 h1 ne h2 =
    let over : s2.cancelled ≡ true =
      sym (ap (λ p. p.1.cancelled) h2)
      ∙ retry-Stopped waits (try_to_process_logs c batch.logs) s1 (ap (λ p. p.0) h2) in
    rw (h1, unless_crashed-eq e1 _ _ ne, h2)
      (record_loop_cancelled waits batch.block_number (record st { session = s2 }) over)
