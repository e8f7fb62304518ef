-- ===== src/Monitor/ContractMonitor/Cursor/Saved.antt =====
-- The row of a cursor in the database after it has been recorded.
use tokenbridge_monitor.Base.{
  ℕ, ◌≤◌, ◌≡◌, refl, ap, ◌∙◌, sym, subst, inl, inr, Bool, true, some, List, leb, leb→le,
  map-eq-some, find_by, ◌&&◌, ◌==◌, string_eq, bytes_eq, beq_refl, Bool-cases, le→ltb_false,
}
use tokenbridge_monitor.Entity.{LogsCursor}
use tokenbridge_monitor.Exec.{ok, Session}
use tokenbridge_monitor.Exec.Calls.{statement_done}
use tokenbridge_monitor.Repo.Store.{Store}
use tokenbridge_monitor.Repo.Table.{upsert_row}
use tokenbridge_monitor.Repo.Lookup.{find-upsert_row}
use tokenbridge_monitor.Repo.Ensure.Upserts.{ensure_logs_cursor, upsert_cursor}
use tokenbridge_monitor.Monitor.ContractMonitor.{
  State, save_cursor, record_fetched_block_number, record_processed_block_number,
}

abbrev has_key : LogsCursor → LogsCursor → Bool
has_key cursor r = r.chain_id == cursor.chain_id && r.address == cursor.address

-- The row that GetByChainIDAndAddress finds for `cursor` has its blocks, in their order.
abbrev pub SavedIn : Store → LogsCursor → Type 0
SavedIn t cursor =
    (r : LogsCursor) × (find_by (has_key cursor) t.logs_cursors ≡ some r)
    × (r.last_fetched_block ≡ cursor.last_fetched_block)
    × (r.last_processed_block ≡ cursor.last_processed_block)
    × (r.last_processed_block ≤ r.last_fetched_block)

-- The columns that the conflict clause sets.
abbrev set_blocks : LogsCursor → LogsCursor → LogsCursor
set_blocks cursor r = record r {
  last_fetched_block = cursor.last_fetched_block;
  last_processed_block = cursor.last_processed_block;
}

rows-SavedIn :
    (cursor : LogsCursor) (s t : Store) (rows : List LogsCursor)
    → cursor.last_processed_block ≤ cursor.last_fetched_block
    → upsert_row (has_key cursor) (set_blocks cursor) true cursor s.logs_cursors ≡ some rows
    → t.logs_cursors ≡ rows
    → SavedIn t cursor
rows-SavedIn cursor s t rows l e w =
    elim (find-upsert_row (has_key cursor) (set_blocks cursor) (λ r. refl) true cursor
      s.logs_cursors rows (rw (beq_refl cursor.chain_id, beq_refl cursor.address)) e) [
        | inl new ↦ (cursor, ap (find_by (has_key cursor)) w ∙ new, refl, refl, l)
        | inr (r, old) ↦ (set_blocks cursor r, ap (find_by (has_key cursor)) w ∙ old, refl, refl, l)
      ]

upsert_cursor-SavedIn :
    (cursor : LogsCursor) (s t : Store) → upsert_cursor cursor s ≡ some t → SavedIn t cursor
unfolding upsert_cursor
upsert_cursor-SavedIn cursor s t h =
    elim (Bool-cases (leb cursor.last_processed_block cursor.last_fetched_block)) [
      | inl in_order ↦
          let (rows, e, w) = map-eq-some _ _ (rw in_order at h) in
          rows-SavedIn cursor s t rows (leb→le _ _ in_order) e
            (ap (λ (u : Store). u.logs_cursors) (sym w))
      | inr reversed ↦ absurd (cc (rw reversed at h))
    ]

save_cursor-SavedIn :
    (st st' : State) → save_cursor st ≡ (ok tt, st') → SavedIn st'.session.store st'.logs_cursor
unfolding save_cursor ensure_logs_cursor
save_cursor-SavedIn st st' h =
    let s' : Session = (ensure_logs_cursor st.logs_cursor st.session).1 in
    let done = statement_done _ st.session s' (ap (λ p. (p.0, s')) h) in
    subst (λ (u : State). SavedIn u.session.store u.logs_cursor) (ap (λ p. p.1) h)
      (upsert_cursor-SavedIn st.logs_cursor st.session.store s'.store done)

-- Where recordProcessedBlockNumber is given a block that is not behind the cursor and reports
-- success, the row that the database then has for the contract holds both blocks of the cursor in
-- memory, the processed one not past the fetched one.
pub record_processed_block_number-SavedIn :
    (n : ℕ) (st st' : State)
    → st.logs_cursor.last_processed_block ≤ n
    → record_processed_block_number n st ≡ (ok tt, st')
    → SavedIn st'.session.store st'.logs_cursor
unfolding record_processed_block_number
record_processed_block_number-SavedIn n st st' l h =
    save_cursor-SavedIn _ st' (rw (le→ltb_false n _ l) at h)

-- Where recordFetchedBlockNumber is given a block that is not behind the cursor and reports success,
-- the row that the database then has for the contract holds both blocks of the cursor in memory, the
-- processed one not past the fetched one.
pub record_fetched_block_number-SavedIn :
    (n : ℕ) (st st' : State)
    → st.logs_cursor.last_fetched_block ≤ n
    → record_fetched_block_number n st ≡ (ok tt, st')
    → SavedIn st'.session.store st'.logs_cursor
unfolding record_fetched_block_number
record_fetched_block_number-SavedIn n st st' l h =
    save_cursor-SavedIn _ st' (rw (le→ltb_false n _ l) at h)
