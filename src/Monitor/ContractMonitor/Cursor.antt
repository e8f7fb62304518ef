-- ===== src/Monitor/ContractMonitor/Cursor.antt =====
-- The cursor, the head block and the flag of synchronisation: recordHeadBlockNumber,
-- recordFetchedBlockNumber and recordProcessedBlockNumber.
pub mod Saved
use Prim.Native.Nat.{max}
use mathlib.Core.Option
use tokenbridge_monitor.Base.{
  ℕ, ◌+◌, ◌-◌, ◌^◌, ◌≤◌, ◌<◌, ◌≡◌, refl, ap, ◌∙◌, sym, Bool, true, false, inl, inr, arith, ltb, leb,
  uint_mod, sub_uint, Bool-cases, find_by, ◌&&◌, ◌==◌, string_eq, bytes_eq, Option, none, some,
  beq_refl, lt→ltb, List, [], ◌∷◌,
}
use tokenbridge_monitor.Entity.{LogsCursor}
use tokenbridge_monitor.Config.{BridgeSideConfig}
use tokenbridge_monitor.Exec.{Result, ok, err, Session, statement}
use tokenbridge_monitor.Repo.Store.{Store}
use tokenbridge_monitor.Repo.Table.{upsert_row}
use tokenbridge_monitor.Repo.Ensure.Upserts.{ensure_logs_cursor, upsert_cursor}
use tokenbridge_monitor.Monitor.ContractMonitor.{
  State, synced_at, initial_cursor, save_cursor, record_is_synced, record_head_block_number,
  record_fetched_block_number, record_processed_block_number,
}

-- The flag says what it is computed from.
abbrev pub IsConsistent : State → Type 0
IsConsistent st = st.is_synced ≡ synced_at st.logs_cursor.last_processed_block st.head_block

-- recordHeadBlockNumber never lowers the head block, leaves the cursor alone and keeps the flag of
-- synchronisation true to them.
pub record_head_block_number_lem :
    (n : ℕ) (st : State)
    → IsConsistent st
    → let st' = record_head_block_number n st in
      (st'.head_block ≡ max st.head_block n) × (st'.logs_cursor ≡ st.logs_cursor) × IsConsistent st'
unfolding record_head_block_number
record_head_block_number_lem n st h = elim (Bool-cases (ltb n st.head_block)) [
  | inl less ↦ rw less (ground arith, refl, h)
  | inr more ↦ rw more (ground arith, refl, refl)
]

-- recordFetchedBlockNumber, saved or not, raises the last fetched block to the one it is given and
-- never lowers it, and changes nothing else in memory: the rest of the cursor, the head block, the
-- flag and both channels are as before.
pub record_fetched_block_number_lem :
    (n : ℕ) (st : State)
    → let st' = (record_fetched_block_number n st).1 in
      st' ≡ record st {
        logs_cursor = record st.logs_cursor {
          last_fetched_block = max st.logs_cursor.last_fetched_block n;
        };
        session = st'.session;
      }
unfolding record_fetched_block_number save_cursor
record_fetched_block_number_lem n st = elim (Bool-cases (ltb n st.logs_cursor.last_fetched_block)) [
  | inl less ↦
      let kept : max st.logs_cursor.last_fetched_block n ≡ st.logs_cursor.last_fetched_block =
        ground arith in
      rw (less, kept) refl
  | inr more ↦
      let raised : max st.logs_cursor.last_fetched_block n ≡ n = ground arith in
      rw (more, raised) refl
]

-- recordProcessedBlockNumber, saved or not, raises the last processed block to the one it is given
-- and never lowers it, changes neither the last fetched block nor the head block, and keeps the
-- flag of synchronisation true to them.
pub record_processed_block_number_lem :
    (n : ℕ) (st : State)
    → IsConsistent st
    → let st' = (record_processed_block_number n st).1 in
      (st'.logs_cursor.last_processed_block ≡ max st.logs_cursor.last_processed_block n)
      × (st'.logs_cursor.last_fetched_block ≡ st.logs_cursor.last_fetched_block)
      × (st'.head_block ≡ st.head_block)
      × IsConsistent st'
unfolding record_processed_block_number
record_processed_block_number_lem n st h =
    elim (Bool-cases (ltb n st.logs_cursor.last_processed_block)) [
      | inl less ↦ rw less (ground arith, refl, refl, h)
      | inr more ↦ rw more (ground arith, refl, refl, refl)
    ]

-- A bridge side that is configured to start at block 0 and has no cursor yet keeps the cursor that
-- it begins with: for every block below 2^64 - 1 both recordFetchedBlockNumber and
-- recordProcessedBlockNumber report success and change nothing.
pub start_at_zero_stays :
    (cfg : BridgeSideConfig) (st : State) (n : ℕ)
    → cfg.start_block ≡ 0
    → st.logs_cursor ≡ initial_cursor cfg
    → n < uint_mod - 1
    → (record_fetched_block_number n st ≡ (ok tt, st))
      × (record_processed_block_number n st ≡ (ok tt, st))
unfolding record_fetched_block_number record_processed_block_number initial_cursor
start_at_zero_stays cfg st n z c l =
    let f : st.logs_cursor.last_fetched_block ≡ uint_mod - 1 =
      ap (λ (k : LogsCursor). k.last_fetched_block) c ∙ rw z in
    let p : st.logs_cursor.last_processed_block ≡ uint_mod - 1 =
      ap (λ (k : LogsCursor). k.last_processed_block) c ∙ rw z in
    let f' : ltb n st.logs_cursor.last_fetched_block ≡ true = lt→ltb _ _ (omega arith) in
    let p' : ltb n st.logs_cursor.last_processed_block ≡ true = lt→ltb _ _ (omega arith) in
    (rw f', rw p')
