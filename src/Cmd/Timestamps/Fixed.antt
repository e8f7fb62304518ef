-- ===== src/Cmd/Timestamps/Fixed.antt =====
-- What cmd/fix_block_timestamps/main.go leaves behind.
use tokenbridge_monitor.Base.{
  ℕ, ◌≡◌, refl, ◌∙◌, sym, beq_refl, inl, inr, ◌⊎◌, String, Bool, true, not, ◌&&◌, ◌==◌, List, [],
  ◌∷◌, arith, any, filter_by, All, All-imp, Bool-cases, nat_eq, string_eq,
}
use tokenbridge_monitor.Entity.{Log, BlockTimestamp}
use tokenbridge_monitor.Config.Init.{Config}
use tokenbridge_monitor.Repo.Store.{Store}
use tokenbridge_monitor.Exec.{Result, ok, query, statement, continue, ◌>>=◌}
use tokenbridge_monitor.Exec.Retryable.{clean}
use tokenbridge_monitor.Cmd.Timestamps.{
  is_of_block, has_timestamp, same_block, blocks_of, insert_timestamps, fix_block_timestamps,
  delete_unneeded, logs_without_timestamp,
}
use tokenbridge_monitor.Cmd.Timestamps.Blocks.{
  seen, covered, All-blocks_of, seen-has_timestamp, same_block_refl,
}
use tokenbridge_monitor.Cmd.Timestamps.Inserted.{Fits, inserted, Answered, insert_timestamps-ok}

-- A timestamp of the same block with the same time.
abbrev pub same_row : BlockTimestamp → BlockTimestamp → Bool
same_row a b =
    a.chain_id == b.chain_id && a.block_number == b.block_number && a.timestamp == b.timestamp

module _ {B : Type 0} where
  All-self :
      (p : B → B → Bool) (xs : List B)
      → ((x : B) → p x x ≡ true)
      → All (λ x. any (λ y. p y x) xs ≡ true) xs
  All-self p [] self = tt
  All-self p (x ∷ xs) self =
      (rw (self x) refl, All-imp _ _ xs (λ y h. ground (arith, h)) (All-self p xs self))

  module _ (P : B → Type 0) (q : B → Bool) where
    All-filter_by : (xs : List B) → All (λ x. q x ≡ true → P x) xs → All P (filter_by q xs)
    All-filter_by [] a = tt
    All-filter_by (x ∷ xs) a = elim (Bool-cases (q x)) [
      | inl hit ↦ rw hit (a.0 hit, All-filter_by xs a.1)
      | inr miss ↦ rw miss (All-filter_by xs a.1)
    ]

    filter_by-All : (xs : List B) → All P (filter_by q xs) → All (λ x. q x ≡ true → P x) xs
    filter_by-All [] a = tt
    filter_by-All (x ∷ xs) a = elim (Bool-cases (q x)) [
      | inl hit ↦
          let both : P x × All P (filter_by q xs) = rw hit at a in
          (λ _. both.0, filter_by-All xs both.1)
      | inr miss ↦ (λ hit. absurd (cc (hit, miss)), filter_by-All xs (rw miss at a))
    ]

module _ (cfg : Config) (header_time : String → ℕ → Result ℕ) where
  -- A timestamp that was there or that the node told, of a block with logs.
  abbrev pub Justified : Store → BlockTimestamp → Type 0
  Justified s bt =
      (any (λ l. is_of_block l bt) s.logs ≡ true)
      × ((any (λ r. same_row r bt) s.block_timestamps ≡ true)
          ⊎ (header_time bt.chain_id bt.block_number ≡ ok bt.timestamp))

  pub record Fixed (s t : Store) : Type 0 where
    pub logs : t.logs ≡ s.logs
    pub stamped : All (λ l. has_timestamp t l ≡ true) s.logs
    pub justified : All (Justified s) t.block_timestamps

  module _ (s : Store) where
    abbrev needed : BlockTimestamp → Bool
    needed bt = any (λ l. is_of_block l bt) s.logs

    abbrev trimmed : Store
    trimmed = record s { block_timestamps = filter_by needed s.block_timestamps }

    abbrev missing : List Log
    missing = filter_by (λ l. not (has_timestamp trimmed l)) s.logs

    fix_block_timestamps-run :
        fix_block_timestamps cfg header_time (clean s)
        ≡ insert_timestamps cfg header_time (blocks_of [] missing) (clean trimmed)
    unfolding fix_block_timestamps delete_unneeded logs_without_timestamp statement query continue
        ◌>>=◌
    fix_block_timestamps-run = refl

    same_row_refl : (r : BlockTimestamp) → same_row r r ≡ true
    same_row_refl r = rw (beq_refl r.chain_id, beq_refl r.block_number, beq_refl r.timestamp) refl

    trimmed-Justified : All (Justified s) trimmed.block_timestamps
    trimmed-Justified = All-filter_by (Justified s) needed s.block_timestamps (
        All-imp _ _ s.block_timestamps (λ bt there of_log. (of_log, inl there))
          (All-self same_row s.block_timestamps same_row_refl))

    missing-Fits : All (Fits cfg header_time (Justified s)) (blocks_of [] missing)
    missing-Fits = All-blocks_of _ [] missing (
        All-filter_by _ _ s.logs (
          All-imp _ _ s.logs (λ l there _ time told. (there, inr told))
            (All-self same_block s.logs same_block_refl)))

    all_stamped :
        (t : Store)
        → ((l : Log) → has_timestamp trimmed l ≡ true → has_timestamp t l ≡ true)
        → All (λ l. has_timestamp t l ≡ true) (blocks_of [] missing)
        → All (λ l. has_timestamp t l ≡ true) s.logs
    all_stamped t kept asked =
        All-imp (λ l. not (has_timestamp trimmed l) ≡ true → seen (blocks_of [] missing) l ≡ true)
          (λ l. has_timestamp t l ≡ true) s.logs
          (λ l entry. elim (Bool-cases (has_timestamp trimmed l)) [
            | inl there ↦ kept l there
            | inr gone ↦ seen-has_timestamp t (blocks_of [] missing) l asked (entry (rw gone refl))
          ])
          (filter_by-All _ _ s.logs (covered [] missing))

  run-Fixed :
      (s t : Store) → fix_block_timestamps cfg header_time (clean s) ≡ (ok tt, clean t) → Fixed s t
  run-Fixed s t h =
      let done =
        inserted cfg header_time (Justified s) (blocks_of [] (missing s)) (trimmed s) (clean t)
          (sym (fix_block_timestamps-run s) ∙ h) (trimmed-Justified s) (missing-Fits s) in
      record {
        logs = done.logs;
        stamped = all_stamped s t done.kept done.stamped;
        justified = done.rows;
      }

  -- Where the chain of each log is configured and its node tells the time of the block of the log,
  -- and the database answers, the command succeeds. The logs are as before then, each has a
  -- timestamp of its block, and each timestamp is of a block with logs and was there before or is
  -- the time that the node tells for the block.
  pub fix_block_timestamps-Fixed :
      (s : Store)
      → All (Answered cfg header_time) s.logs
      → (t : Store) × (fix_block_timestamps cfg header_time (clean s) ≡ (ok tt, clean t))
        × Fixed s t
  fix_block_timestamps-Fixed s answers =
      let answered =
        All-blocks_of _ [] (missing s)
          (All-filter_by _ _ s.logs (All-imp _ _ s.logs (λ l a _. a) answers)) in
      let (t, e) =
        insert_timestamps-ok cfg header_time (blocks_of [] (missing s)) (trimmed s) answered in
      let run = fix_block_timestamps-run s ∙ e in (t, run, run-Fixed s t run)
