-- ===== src/Monitor/ContractMonitor/Reprocess.antt =====
-- ProcessBlockRange of monitor/contract_monitor.go: blocks that were processed are searched and
-- handled once more. What it sends is here; the goroutines that take it are those of `Steps`.
use tokenbridge_monitor.Base.{
  ℕ, zero, suc, ◌≤◌, ◌<◌, ◌+◌, ◌≡◌, refl, ap, ◌∙◌, inl, inr, Bool, true, false, Option, none, some,
  List, [], ◌∷◌, ◌++◌, map, ltb, Bool-cases, arith, if◌then◌else◌, uint_mod, le→ltb_false,
}
use tokenbridge_monitor.Entity.{LogsCursor}
use tokenbridge_monitor.Exec.{Result, ok, err, panic, beyond_processed}
use tokenbridge_monitor.Exec.Retry.{Ended, finished, interrupted, crashed, retry}
use tokenbridge_monitor.Monitor.Types.{BlocksRange, LogsBatch, split_block_range}
use tokenbridge_monitor.Monitor.Types.SplitRange.{Tiles, split_block_range-Tiles}
use tokenbridge_monitor.Monitor.ContractMonitor.{Contract, State, record_processed_block_number}
use tokenbridge_monitor.Monitor.ContractMonitor.Batches.{
  process_logs_batch, try_to_get_block_timestamp, try_to_process_logs, record_loop, resolve_record,
  unless_crashed, cancel,
}

-- `nil`, the ranges, `nil`; `none` where the splitting does not end.
abbrev pub send_ranges : State → Option (List BlocksRange) → Option State
send_ranges st none = none
send_ranges st (some ranges) = some (record st {
  blocks_range_chan = st.blocks_range_chan ++ none ∷ (map (λ r. some r) ranges ++ none ∷ []);
})

unfoldable pub process_block_range : Contract → ℕ → ℕ → State → Result (Option State)
process_block_range c from_block to_block st =
    if ltb st.logs_cursor.last_processed_block to_block
    then err beyond_processed
    else ok (send_ranges st (split_block_range from_block to_block c.cfg.max_block_range_size))

-- ProcessBlockRange refuses a range that ends past the last processed block. Any other range with a
-- positive size of batches, where the last sum of the splitting does not wrap, is sent to the
-- fetcher as ranges that follow one another from its first block to its last, between two `nil`s.
pub process_block_range-Tiles :
    (c : Contract) (from_block to_block : ℕ) (st : State)
    → 0 < c.cfg.max_block_range_size
    → to_block + c.cfg.max_block_range_size < uint_mod
    → (st.logs_cursor.last_processed_block < to_block
        → process_block_range c from_block to_block st ≡ err beyond_processed)
      × (to_block ≤ st.logs_cursor.last_processed_block
          → (ranges : List BlocksRange) × (process_block_range c from_block to_block st
              ≡ ok (
                  some (record st {
                    blocks_range_chan =
                        st.blocks_range_chan ++ none ∷ (map (λ r. some r) ranges ++ none ∷ []);
                  })))
            × Tiles c.cfg.max_block_range_size from_block to_block ranges)
unfolding process_block_range
process_block_range-Tiles c from_block to_block st positive no_wrap =
    let (ranges, split, tiles) =
      split_block_range-Tiles from_block to_block c.cfg.max_block_range_size positive no_wrap in
    (
      λ past. ground arith,
      λ within. (
        ranges,
        rw (le→ltb_false st.logs_cursor.last_processed_block to_block within, split) refl,
        tiles,
      ),
    )

abbrev Keeps : LogsCursor → Ended (Unit {0}) × State → Type 0
Keeps cursor (e, st) = st.logs_cursor ≡ cursor

record_processed-Keeps :
    (n : ℕ) (st : State)
    → n ≤ st.logs_cursor.last_processed_block
    → (record_processed_block_number n st).1.logs_cursor ≡ st.logs_cursor
unfolding record_processed_block_number
record_processed-Keeps n st l = elim (Bool-cases (ltb n st.logs_cursor.last_processed_block)) [
  | inl old ↦ rw old
  | inr new ↦
      let same : n ≡ st.logs_cursor.last_processed_block = ground arith in
      rw new (ap (λ k. record st.logs_cursor { last_processed_block = k }) same)
]

interrupted_or_again :
    (b : Bool) (st : State) (again : State → Ended (Unit {0}) × State)
    → Keeps st.logs_cursor (again st)
    → Keeps st.logs_cursor (elim b [ true ↦ (interrupted, st) | false ↦ again st ])
interrupted_or_again true st again k = refl
interrupted_or_again false st again k = k

resolve_record-Keeps :
    (r : Result (Unit {0})) (st : State) (again : State → Ended (Unit {0}) × State)
    → Keeps st.logs_cursor (again st)
    → Keeps st.logs_cursor (resolve_record r st again)
resolve_record-Keeps (ok _) st again k = refl
resolve_record-Keeps (err e) st again k = interrupted_or_again st.session.cancelled st again k
resolve_record-Keeps panic st again k = refl

record_loop-Keeps :
    (waits n : ℕ) (st : State)
    → n ≤ st.logs_cursor.last_processed_block
    → Keeps st.logs_cursor (record_loop waits n st)
unfolding record_loop
record_loop-Keeps zero n st l =
    resolve_record-Keeps (record_processed_block_number n st).0
      (record_processed_block_number n st).1 (λ st''. (interrupted, cancel st'')) refl
    ∙ record_processed-Keeps n st l
record_loop-Keeps (suc waits) n st l =
    let st' = (record_processed_block_number n st).1 in
    let kept = record_processed-Keeps n st l in
    resolve_record-Keeps (record_processed_block_number n st).0 st' (record_loop waits n)
      (record_loop-Keeps waits n st' (rw kept l))
    ∙ kept

unless_crashed-Keeps :
    (e : Ended (Unit {0})) (st : State) (next : State → Ended (Unit {0}) × State)
    → Keeps st.logs_cursor (next st)
    → Keeps st.logs_cursor (unless_crashed e st next)
unless_crashed-Keeps (finished _) st next k = k
unless_crashed-Keeps interrupted st next k = k
unless_crashed-Keeps crashed st next k = refl

-- However the handling of a batch ends, a block that is not past the last processed one leaves the
-- cursor in memory as it is: logs that are handled once more never move it.
pub process_logs_batch-Keeps :
    (c : Contract) (header_time : ℕ → Result ℕ) (waits : ℕ) (batch : LogsBatch) (st : State)
    → batch.block_number ≤ st.logs_cursor.last_processed_block
    → (process_logs_batch c header_time waits batch st).1.logs_cursor ≡ st.logs_cursor
unfolding process_logs_batch
process_logs_batch-Keeps c header_time waits batch st l =
    let (e1, s1) =
      retry waits (try_to_get_block_timestamp c header_time batch.block_number) st.session in
    let (e2, s2) = retry waits (try_to_process_logs c batch.logs) s1 in
    let handle_logs : State → Ended (Unit {0}) × State = λ st'.
      let (e, s) = retry waits (try_to_process_logs c batch.logs) st'.session in
      unless_crashed e (record st' { session = s }) (record_loop waits batch.block_number) in
    unless_crashed-Keeps e1 (record st { session = s1 }) handle_logs
      (unless_crashed-Keeps e2 (record st { session = s2 }) (record_loop waits batch.block_number)
        (record_loop-Keeps waits batch.block_number (record st { session = s2 }) l))
