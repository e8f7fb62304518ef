-- ===== src/Monitor/ContractMonitor/Steps/Reachable.antt =====
-- Whatever the goroutines do, in whatever order, the database never has to refuse the cursor.
use tokenbridge_monitor.Base.{
  ℕ, ◌≤◌, ◌≡◌, ◌≢◌, refl, ap, subst, Option, none, some, List, ◌∷◌, All, arith,
}
use tokenbridge_monitor.Exec.{Result}
use tokenbridge_monitor.Repo.Store.{Store}
use tokenbridge_monitor.Repo.Table.{upsert_row}
use tokenbridge_monitor.Repo.Ensure.Upserts.{upsert_cursor}
use tokenbridge_monitor.Monitor.Types.{LogsBatch}
use tokenbridge_monitor.Monitor.ContractMonitor.{Contract, State}
use tokenbridge_monitor.Monitor.ContractMonitor.Batches.{
  process_logs_batch, unless_crashed, record_loop, try_to_get_block_timestamp, try_to_process_logs,
}
use tokenbridge_monitor.Exec.Retry.{retry, Ended, finished, interrupted, crashed}
use tokenbridge_monitor.Monitor.ContractMonitor.Steps.{
  Step, looked_for_head, skipped_range, failed_to_fetch, fetched, skipped_batch, processed,
  loaded_unprocessed, Steps, stay, go_on,
}
use tokenbridge_monitor.Monitor.ContractMonitor.Steps.InOrder.{
  BatchUpTo, InOrder, Keeps-InOrder, fetch_round-Keeps, Raises, record_loop-Raises,
}
use tokenbridge_monitor.Monitor.ContractMonitor.Steps.Fetching.{
  try_to_fetch_logs-InOrder, load_unprocessed_logs-InOrder,
}

unless_crashed-Raises :
    (n : ℕ) (base st : State) (e : Ended Unit) (next : State → Ended Unit × State)
    → Raises n base st
    → ((t : State) → Raises n base t → Raises n base (next t).1)
    → Raises n base (unless_crashed e st next).1
unless_crashed-Raises n base st (finished _) next h k = k st h
unless_crashed-Raises n base st interrupted next h k = k st h
unless_crashed-Raises n base st crashed next h k = h

process_logs_batch-Raises :
    (c : Contract) (header_time : ℕ → Result ℕ) (waits : ℕ) (b : LogsBatch) (st : State)
    → Raises b.block_number st (process_logs_batch c header_time waits b st).1
unfolding process_logs_batch
process_logs_batch-Raises c header_time waits b st =
    let stamped =
      retry waits (try_to_get_block_timestamp c header_time b.block_number) st.session in
    unless_crashed-Raises b.block_number st (record st { session = stamped.1 }) stamped.0 _
      (record { bound = omega arith; same_fetched = refl; same_batches = refl })
      λ t k.
        let handled = retry waits (try_to_process_logs c b.logs) t.session in
        unless_crashed-Raises b.block_number st (record t { session = handled.1 }) handled.0
          (record_loop waits b.block_number)
          (record { bound = k.bound; same_fetched = k.same_fetched; same_batches = k.same_batches })
          (λ u l. record_loop-Raises waits b.block_number st u l)

Raises-InOrder :
    (n : ℕ) (st st' : State)
    → InOrder st
    → n ≤ st.logs_cursor.last_fetched_block
    → Raises n st st'
    → InOrder st'
Raises-InOrder n st st' i l r = record {
  cursor_in_order = omega (arith, i.cursor_in_order, r.bound, r.same_fetched);
  batches_fetched = rw (r.same_fetched, r.same_batches) i.batches_fetched;
}

after_batch :
    (st : State) (b : Option LogsBatch) (rest : List (Option LogsBatch))
    → st.logs_chan ≡ b ∷ rest
    → InOrder st
    → InOrder (record st { logs_chan = rest }) × BatchUpTo st.logs_cursor.last_fetched_block b
after_batch st b rest e i =
    let all = subst (All (BatchUpTo st.logs_cursor.last_fetched_block)) e i.batches_fetched in
    (record { cursor_in_order = i.cursor_in_order; batches_fetched = all.1 }, all.0)

Step-InOrder : (c : Contract) (st st' : State) → InOrder st → Step c st st' → InOrder st'
Step-InOrder c st st' i (looked_for_head answer start next _ e) =
    Keeps-InOrder st st' (fetch_round-Keeps c answer start next st st' e) i
Step-InOrder c st st' i (skipped_range rest e) = record {
  cursor_in_order = i.cursor_in_order;
  batches_fetched = i.batches_fetched;
}
Step-InOrder c st st' i (failed_to_fetch node r rest e _ h b w d) =
    subst InOrder (ap (λ q. q.1) d) (try_to_fetch_logs-InOrder c node r st i b w)
Step-InOrder c st st' i (fetched node r rest st1 h b w d) =
    let i' = subst InOrder (ap (λ q. q.1) d) (try_to_fetch_logs-InOrder c node r st i b w) in
    record { cursor_in_order = i'.cursor_in_order; batches_fetched = i'.batches_fetched }
Step-InOrder c st st' i (skipped_batch rest e) = (after_batch st none rest e i).0
Step-InOrder c st st' i (processed header_time waits b rest ended _ e d) =
    let (i', l) = after_batch st (some b) rest e i in
    subst InOrder (ap (λ q. q.1) d) (
      Raises-InOrder b.block_number (record st { logs_chan = rest }) _ i' l
        (process_logs_batch-Raises c header_time waits b (record st { logs_chan = rest })))
Step-InOrder c st st' i (loaded_unprocessed from waits e _ b d) = subst InOrder (ap (λ q. q.1) d) (
    load_unprocessed_logs-InOrder c from st.logs_cursor.last_fetched_block waits st i (omega arith)
      b)

Steps-InOrder : (c : Contract) (st st' : State) → InOrder st → Steps c st st' → InOrder st'
Steps-InOrder c st st' i stay = i
Steps-InOrder c st st' i (go_on mid _ before last) =
    Step-InOrder c mid st' (Steps-InOrder c st mid i before) last

accepted-cursor : (st : State) (s : Store) → InOrder st → upsert_cursor st.logs_cursor s ≢ none
unfolding upsert_cursor upsert_row
accepted-cursor st s i e = absurd (ground (arith, i.cursor_in_order))

-- Whatever the node answers and in whatever order the goroutines run, the processed block of the
-- cursor stays at most the fetched one and every batch in the channel is of a fetched block, so that
-- the constraint `processed_before_fetched` of the database never refuses the cursor; provided that
-- this holds at the start, that no range goes past block 2^32 - 2, and that the logs found for a
-- range are of blocks up to its end.
pub steps_lem :
    (c : Contract) (st st' : State) (s : Store)
    → InOrder st
    → Steps c st st'
    → InOrder st' × (upsert_cursor st'.logs_cursor s ≢ none)
steps_lem c st st' s i steps =
    let i' = Steps-InOrder c st st' i steps in (i', accepted-cursor st' s i')
