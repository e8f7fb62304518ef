-- ===== src/Monitor/ContractMonitor/Steps/Fetching.antt =====
-- Fetching, and loading what was fetched before, keep the cursor in order.
use tokenbridge_monitor.Base.{
  ℕ, suc, ◌≤◌, ◌<◌, ◌≡◌, refl, ap, inl, inr, Option, none, some, List, [], ◌∷◌, map, All,
  All-append, arith, ltb, Bool-cases,
}
use tokenbridge_monitor.Entity.{Log}
use tokenbridge_monitor.Exec.{Result, ok, err, panic}
use tokenbridge_monitor.Repo.Find.Sorted.{SortedFrom}
use tokenbridge_monitor.Ethclient.{Node}
use tokenbridge_monitor.Monitor.Types.{BlocksRange, LogsBatch, max_uint32}
use tokenbridge_monitor.Monitor.Types.SplitLogs.{Ascending}
use tokenbridge_monitor.Monitor.ContractMonitor.{
  Contract, State, save_cursor, record_fetched_block_number, submit_logs, last_block,
}
use tokenbridge_monitor.Monitor.ContractMonitor.Submit.{submitted_lem}
use tokenbridge_monitor.Monitor.ContractMonitor.Cursor.{record_fetched_block_number_lem}
use tokenbridge_monitor.Monitor.ContractMonitor.Fetcher.{
  submit_found, load_unprocessed_logs, unprocessed_filter, record_and_submit, submit_if_ok,
  find_and_save, try_to_fetch_logs,
}
use tokenbridge_monitor.Monitor.ContractMonitor.Steps.Unprocessed.{SortedUpTo, found-SortedUpTo}
use tokenbridge_monitor.Repo.Find.{find_logs}
use tokenbridge_monitor.Exec.Retry.{EndsIn, retry, Ended, finished, interrupted, crashed}
use tokenbridge_monitor.Monitor.ContractMonitor.Steps.{FindsWithin}
use tokenbridge_monitor.Monitor.ContractMonitor.Steps.InOrder.{BatchUpTo, InOrder}
use tokenbridge_monitor.Monitor.ContractMonitor.Steps.Found.{find_and_save-SortedFrom}

Ascending-last :
    (from n : ℕ) (bs : List LogsBatch)
    → Ascending from bs
    → last_block bs ≡ some n
    → All (λ b. b.block_number ≤ n) bs
Ascending-last from n [] a l = tt
Ascending-last from n (b ∷ []) a l = let e : b.block_number ≡ n = cc l in (omega arith, tt)
Ascending-last from n (b ∷ c ∷ bs) a l =
    let later = Ascending-last (suc b.block_number) n (c ∷ bs) a.1 l in
    (omega (arith, a.1.0, later.0), later)

sent-BatchUpTo :
    (n : ℕ) (bs : List LogsBatch)
    → All (λ b. b.block_number ≤ n) bs
    → All (BatchUpTo n) (map (λ b. some b) bs)
sent-BatchUpTo n [] u = tt
sent-BatchUpTo n (b ∷ bs) u = (u.0, sent-BatchUpTo n bs u.1)

BatchUpTo-mono :
    (m n : ℕ) (xs : List (Option LogsBatch)) → m ≤ n → All (BatchUpTo m) xs → All (BatchUpTo n) xs
BatchUpTo-mono m n [] l u = tt
BatchUpTo-mono m n (none ∷ xs) l u = (tt, BatchUpTo-mono m n xs l u.1)
BatchUpTo-mono m n (some b ∷ xs) l u = (omega (arith, u.0), BatchUpTo-mono m n xs l u.1)

record_fetched-chan :
    (n : ℕ) (st : State) → (record_fetched_block_number n st).1.logs_chan ≡ st.logs_chan
unfolding record_fetched_block_number save_cursor
record_fetched-chan n st = elim (Bool-cases (ltb n st.logs_cursor.last_fetched_block)) [
  | inl old ↦ rw old refl
  | inr new ↦ rw new refl
]

record_fetched-InOrder :
    (n : ℕ) (st : State)
    → InOrder st
    → InOrder (record_fetched_block_number n st).1
      × (n ≤ (record_fetched_block_number n st).1.logs_cursor.last_fetched_block)
record_fetched-InOrder n st i =
    let e = record_fetched_block_number_lem n st in
    let f = ap (λ (u : State). u.logs_cursor.last_fetched_block) e in
    let p = ap (λ (u : State). u.logs_cursor.last_processed_block) e in
    (
      record {
        cursor_in_order = omega (arith, i.cursor_in_order, f, p);
        batches_fetched =
            rw (record_fetched-chan n st)
              (BatchUpTo-mono _ _ st.logs_chan (omega (arith, f)) i.batches_fetched);
      },
      omega (arith, f),
    )

submit-InOrder :
    (logs : List Log) (n : ℕ) (st : State)
    → InOrder st
    → n ≤ st.logs_cursor.last_fetched_block
    → SortedFrom 0 logs
    → All (λ l. l.block_number ≤ n) logs
    → n < max_uint32
    → InOrder (submit_logs logs n st)
unfolding submit_logs
submit-InOrder logs n st i l s u b =
    let (_, a, last) = submitted_lem logs n s u b in
    record {
      cursor_in_order = i.cursor_in_order;
      batches_fetched =
          All-append _ st.logs_chan _ i.batches_fetched
            (BatchUpTo-mono n _ _ l (sent-BatchUpTo n _ (Ascending-last 0 n _ a last)));
    }

submit_if_ok-InOrder :
    (logs : List Log) (n : ℕ) (r : Result (Unit {0})) (st : State)
    → InOrder st
    → n ≤ st.logs_cursor.last_fetched_block
    → SortedFrom 0 logs
    → All (λ l. l.block_number ≤ n) logs
    → n < max_uint32
    → InOrder (submit_if_ok logs n (r, st)).1
submit_if_ok-InOrder logs n (ok _) st i l s u b = submit-InOrder logs n st i l s u b
submit_if_ok-InOrder logs n (err e) st i l s u b = i
submit_if_ok-InOrder logs n panic st i l s u b = i

record_and_submit-InOrder :
    (n : ℕ) (r : Result (List Log)) (st : State)
    → InOrder st
    → n < max_uint32
    → ((logs : List Log) → r ≡ ok logs → SortedFrom 0 logs × All (λ l. l.block_number ≤ n) logs)
    → InOrder (record_and_submit n r st).1
record_and_submit-InOrder n (ok logs) st i b h =
    let (i', l) = record_fetched-InOrder n st i in
    let (s, u) = h logs refl in
    submit_if_ok-InOrder logs n (record_fetched_block_number n st).0 _ i' l s u b
record_and_submit-InOrder n (err e) st i b h = i
record_and_submit-InOrder n panic st i b h = i

pub try_to_fetch_logs-InOrder :
    (c : Contract) (node : Node) (r : BlocksRange) (st : State)
    → InOrder st
    → r.to < max_uint32
    → FindsWithin c node r st.session
    → InOrder (try_to_fetch_logs c node r st).1
unfolding try_to_fetch_logs
try_to_fetch_logs-InOrder c node r st i b w =
    let s' = (find_and_save c node r st.session).1 in
    record_and_submit-InOrder r.to (find_and_save c node r st.session).0
      (record st { session = s' })
      (record { cursor_in_order = i.cursor_in_order; batches_fetched = i.batches_fetched }) b
      λ logs e.
        let whole : find_and_save c node r st.session ≡ (ok logs, s') = ap (λ q. (q, s')) e in
        (find_and_save-SortedFrom c node r st.session s' logs whole, w logs s' whole)

submit_found-InOrder :
    (n : ℕ) (e : Ended (List Log)) (st : State)
    → InOrder st
    → n ≤ st.logs_cursor.last_fetched_block
    → n < max_uint32
    → EndsIn (SortedUpTo n) e
    → InOrder (submit_found n e st).1
submit_found-InOrder n (finished logs) st i l b q = submit-InOrder logs n st i l q.0 q.1 b
submit_found-InOrder n interrupted st i l b q = i
submit_found-InOrder n crashed st i l b q = i

pub load_unprocessed_logs-InOrder :
    (c : Contract) (from n waits : ℕ) (st : State)
    → InOrder st
    → n ≤ st.logs_cursor.last_fetched_block
    → n < max_uint32
    → InOrder (load_unprocessed_logs c from n waits st).1
unfolding load_unprocessed_logs
load_unprocessed_logs-InOrder c from n waits st i l b =
    let found = retry waits (find_logs (unprocessed_filter c from n)) st.session in
    submit_found-InOrder n found.0 (record st { session = found.1 })
      (record { cursor_in_order = i.cursor_in_order; batches_fetched = i.batches_fetched }) l b
      (found-SortedUpTo c from n waits st.session)
