-- ===== src/Cmd/Timestamps/Inserted.antt =====
-- The insertions of cmd/fix_block_timestamps/main.go.
use tokenbridge_monitor.Base.{
  ℕ, ◌≡◌, refl, ap, ◌∙◌, sym, subst, beq_refl, beq_sym, String, Bool, true, ◌&&◌, ◌==◌, List, [],
  ◌∷◌, arith, All, any-same, nat_eq, string_eq,
}
use mathlib.Core.Option
use tokenbridge_monitor.Entity.{Log, BlockTimestamp}
use tokenbridge_monitor.Config.Init.{Config, get_chain_config}
use tokenbridge_monitor.Repo.Store.{Store}
use tokenbridge_monitor.Repo.Upserted.{
  upserted, upsert_row-upserted, All-upserted, any-upserted_old, any-upserted_new,
}
use tokenbridge_monitor.Repo.Ensure.Upserts.{ensure_block_timestamp}
use tokenbridge_monitor.Exec.{Result, ok, Session, lift, commit, statement, continue, ◌>>=◌}
use tokenbridge_monitor.Exec.Retryable.{clean}
use tokenbridge_monitor.Exec.Sequence.{bind-ok, lift-same}
use tokenbridge_monitor.Cmd.Timestamps.{is_of_block, has_timestamp, known_chain, insert_timestamps}

module _ (ts : BlockTimestamp) where
  abbrev same : BlockTimestamp → Bool
  same r = r.chain_id == ts.chain_id && r.block_number == ts.block_number

  abbrev set : BlockTimestamp → BlockTimestamp
  set r = record r { timestamp = ts.timestamp }

  abbrev after : Store → Store
  after s = record s { block_timestamps = upserted same set ts s.block_timestamps }

  ensure_block_timestamp-after :
      (s : Store) → ensure_block_timestamp ts (clean s) ≡ (ok tt, clean (after s))
  unfolding ensure_block_timestamp statement continue
  ensure_block_timestamp-after s =
      ap (λ o. commit (Option.map (λ rows. record s { block_timestamps = rows }) o) (clean s))
        (upsert_row-upserted same set ts s.block_timestamps)

  set-same : (r : BlockTimestamp) → same r ≡ true → ts ≡ set r
  set-same r h =
      let chains : r.chain_id ≡ ts.chain_id =
        (string_eq.same_iff r.chain_id ts.chain_id).0 (ground arith) in
      let numbers : r.block_number ≡ ts.block_number =
        (nat_eq.same_iff r.block_number ts.block_number).0 (ground arith) in
      rw (chains, numbers) refl

  All-after :
      (P : BlockTimestamp → Type 0) (s : Store)
      → P ts
      → All P s.block_timestamps
      → All P (after s).block_timestamps
  All-after P s p =
      All-upserted same set ts P (λ r h. subst P (set-same r h) p) p s.block_timestamps

  after-kept : (s : Store) (l : Log) → has_timestamp s l ≡ true → has_timestamp (after s) l ≡ true
  after-kept s l = any-upserted_old same set ts (is_of_block l) (λ r. refl) s.block_timestamps

  after-new : (s : Store) (l : Log) → is_of_block l ts ≡ true → has_timestamp (after s) l ≡ true
  after-new s l h =
      let chains : l.chain_id ≡ ts.chain_id =
        (string_eq.same_iff l.chain_id ts.chain_id).0 (ground arith) in
      let numbers : l.block_number ≡ ts.block_number =
        (nat_eq.same_iff l.block_number ts.block_number).0 (ground arith) in
      let flip : (r : BlockTimestamp) → is_of_block l r ≡ same r = λ r.
        rw (chains, numbers, beq_sym ts.chain_id r.chain_id, beq_sym ts.block_number r.block_number)
          refl in
      any-same (is_of_block l) same (after s).block_timestamps flip
      ∙ any-upserted_new same set ts (λ r. refl)
          (rw (beq_refl ts.chain_id, beq_refl ts.block_number) refl) s.block_timestamps

module _ (cfg : Config) (header_time : String → ℕ → Result ℕ) where
  module _ (P : BlockTimestamp → Type 0) where
    -- What inserting the timestamps of the blocks of some logs has done.
    pub record Inserted (ls : List Log) (s s' : Store) : Type 0 where
      pub logs : s'.logs ≡ s.logs
      pub rows : All P s'.block_timestamps
      pub kept : (l : Log) → has_timestamp s l ≡ true → has_timestamp s' l ≡ true
      pub stamped : All (λ l. has_timestamp s' l ≡ true) ls

    abbrev pub Fits : Log → Type 0
    Fits l =
        (time : ℕ)
        → header_time l.chain_id l.block_number ≡ ok time
        → P (record { chain_id = l.chain_id; block_number = l.block_number; timestamp = time })

    insert_timestamps-first :
        (l : Log) (ls : List Log) (s : Store) (s' : Session)
        → insert_timestamps cfg header_time (l ∷ ls) (clean s) ≡ (ok tt, s')
        → (time : ℕ) × (header_time l.chain_id l.block_number ≡ ok time)
          × (insert_timestamps cfg header_time ls (
                clean (
                  after
                    (record {
                      chain_id = l.chain_id;
                      block_number = l.block_number;
                      timestamp = time;
                    })
                    s))
              ≡ (ok tt, s'))
    unfolding insert_timestamps lift
    insert_timestamps-first l ls s s' h =
        let (_, t1, e1, g1) = bind-ok _ _ (clean s) tt s' h in
        let (time, t2, e2, g2) = bind-ok _ _ t1 tt s' g1 in
        let (_, t3, e3, g3) = bind-ok _ _ t2 tt s' g2 in
        let ts : BlockTimestamp = record {
          chain_id = l.chain_id;
          block_number = l.block_number;
          timestamp = time;
        } in
        let still : t2 ≡ clean s = lift-same _ _ t1 t2 e2 ∙ lift-same _ _ (clean s) t1 e1 in
        let next : t3 ≡ clean (after ts s) =
          ap (λ p. p.1)
            (sym e3 ∙ ap (ensure_block_timestamp ts) still ∙ ensure_block_timestamp-after ts s) in
        (
          time,
          ap (λ p. p.0) e2,
          subst (λ t. insert_timestamps cfg header_time ls t ≡ (ok tt, s')) next g3,
        )

    pub inserted :
        (ls : List Log) (s : Store) (s' : Session)
        → insert_timestamps cfg header_time ls (clean s) ≡ (ok tt, s')
        → All P s.block_timestamps
        → All Fits ls
        → Inserted ls s s'.store
    unfolding insert_timestamps lift
    inserted [] s s' h p f =
        let e : s ≡ s'.store = ap (λ q. q.1.store) h in
        subst (λ t. Inserted [] s t) e
          (record { logs = refl; rows = p; kept = λ l k. k; stamped = tt })
    inserted (l ∷ ls) s s' h p f =
        let (time, e, g) = insert_timestamps-first l ls s s' h in
        let ts : BlockTimestamp = record {
          chain_id = l.chain_id;
          block_number = l.block_number;
          timestamp = time;
        } in
        let rest = inserted ls (after ts s) s' g (All-after ts P s (f.0 time e) p) f.1 in
        record {
          logs = rest.logs;
          rows = rest.rows;
          kept = λ x k. rest.kept x (after-kept ts s x k);
          stamped = (
            rest.kept l (after-new ts s l (rw (beq_refl l.chain_id, beq_refl l.block_number) refl)),
            rest.stamped,
          );
        }

  -- The chain is configured and its node tells the time of the block.
  abbrev pub Answered : Log → Type 0
  Answered l =
      (known_chain (get_chain_config cfg l.chain_id) ≡ ok tt)
      × ((time : ℕ) × (header_time l.chain_id l.block_number ≡ ok time))

  pub insert_timestamps-ok :
      (ls : List Log) (s : Store)
      → All Answered ls
      → (t : Store) × (insert_timestamps cfg header_time ls (clean s) ≡ (ok tt, clean t))
  unfolding insert_timestamps lift continue ◌>>=◌
  insert_timestamps-ok [] s a = (s, refl)
  insert_timestamps-ok (l ∷ ls) s a =
      let (known, (time, told)) = a.0 in
      let ts : BlockTimestamp = record {
        chain_id = l.chain_id;
        block_number = l.block_number;
        timestamp = time;
      } in
      let (t, e) = insert_timestamps-ok ls (after ts s) a.1 in
      (t, rw (known, told, ensure_block_timestamp-after ts s) e)
