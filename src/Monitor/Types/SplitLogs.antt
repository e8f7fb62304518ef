-- ===== src/Monitor/Types/SplitLogs.antt =====
-- SplitLogsInBatches groups sorted logs by block and loses none.
use mathlib.Core.List.{append_assoc}
use tokenbridge_monitor.Base.{
  ℕ, suc, ◌+◌, ◌-◌, ◌≤◌, ◌<◌, ◌≡◌, refl, sym, ap, ◌∙◌, subst, inl, inr, List, [], ◌∷◌, ◌++◌, map,
  arith, ltb, if◌then◌else◌, Bool-cases, ltb→lt, lt→ltb, le→ltb_false, length, length-append, take,
  drop, concat, All, drop-length-append, take-length-append,
}
use tokenbridge_monitor.Entity.{Log}
use tokenbridge_monitor.Repo.Find.Sorted.{SortedFrom}
use tokenbridge_monitor.Monitor.Types.{
  LogsBatch, max_uint32, fake_log, block_at, logs_loop, split_logs_in_batches,
}

-- A batch is not empty, and all its logs are of its block.
pub record IsBatch (b : LogsBatch) : Type 0 where
  pub inhabited : 0 < length b.logs
  pub one_block : All (λ l. l.block_number ≡ b.block_number) b.logs

-- Each batch is of a later block than the one before it.
abbrev pub Ascending : ℕ → List LogsBatch → Type 0
Ascending n [] = Unit
Ascending n (b ∷ bs) = (n ≤ b.block_number) × Ascending (suc b.block_number) bs

abbrev pub logs_of : List LogsBatch → List Log
logs_of bs = concat (map (λ b. b.logs) bs)

-- The loop with the open batch in place of its indices.
groups : Log → List Log → List Log → List LogsBatch
groups c current [] = []
groups c current (x ∷ rest) =
    let closed = groups x (x ∷ []) rest in
    let longer = groups c (current ++ x ∷ []) rest in
    let batch : LogsBatch = record { block_number = c.block_number; logs = current } in
    if ltb c.block_number x.block_number then batch ∷ closed else longer

block_at-append :
    (pre : List Log) (c : Log) (rest : List Log)
    → block_at (pre ++ c ∷ rest) (length pre) ≡ c.block_number
block_at-append [] c rest = refl
block_at-append (x ∷ pre) c rest = block_at-append pre c rest

open_batch :
    (pre current rest : List Log) (i : ℕ)
    → i ≡ length pre + length current
    → take (i - length pre) (drop (length pre) (pre ++ (current ++ rest))) ≡ current
open_batch pre current rest i h =
    let n : i - length pre ≡ length current = omega arith in
    rw (drop-length-append pre (current ++ rest), n) (take-length-append current rest)

-- One round, where the open batch is `current` and what stands before it is `pre`.
logs_loop-cons :
    (all pre : List Log) (c : Log) (cs : List Log) (x : Log) (rest : List Log) (i start : ℕ)
    → all ≡ pre ++ ((c ∷ cs) ++ x ∷ rest)
    → start ≡ length pre
    → i ≡ length pre + length (c ∷ cs)
    → logs_loop all (x ∷ rest) i start ≡ (
        if ltb c.block_number x.block_number
        then record { block_number = c.block_number; logs = c ∷ cs } ∷ logs_loop all rest (i + 1) i
        else logs_loop all rest (i + 1) start)
unfolding logs_loop
logs_loop-cons all pre c cs x rest i start e s h =
    let at_start : block_at all start ≡ c.block_number =
      rw (e, s) (block_at-append pre c (cs ++ x ∷ rest)) in
    let batch : take (i - start) (drop start all) ≡ c ∷ cs =
      rw (e, s) (open_batch pre (c ∷ cs) (x ∷ rest) i h) in
    rw (at_start, batch)

logs_loop-groups :
    (all pre : List Log) (c : Log) (cs rest : List Log) (i start : ℕ)
    → all ≡ pre ++ ((c ∷ cs) ++ rest)
    → start ≡ length pre
    → i ≡ length pre + length (c ∷ cs)
    → logs_loop all rest i start ≡ groups c (c ∷ cs) rest
unfolding groups
logs_loop-groups all pre c cs [] i start e s h = unfold logs_loop in refl
logs_loop-groups all pre c cs (x ∷ rest) i start e s h =
    let closed : logs_loop all rest (i + 1) i ≡ groups x (x ∷ []) rest =
      logs_loop-groups all (pre ++ c ∷ cs) x [] rest (i + 1) i
        (e ∙ sym (append_assoc pre (c ∷ cs) (x ∷ rest))) (omega (arith, length-append pre (c ∷ cs)))
        (omega (arith, length-append pre (c ∷ cs))) in
    let longer : logs_loop all rest (i + 1) start ≡ groups c (c ∷ (cs ++ x ∷ [])) rest =
      logs_loop-groups all pre c (cs ++ x ∷ []) rest (i + 1) start
        (e ∙ ap (λ t. pre ++ c ∷ t) (sym (append_assoc cs (x ∷ []) rest))) s
        (omega (arith, length-append cs (x ∷ []))) in
    rw (logs_loop-cons all pre c cs x rest i start e s h, closed, longer)

SortedFrom-mono : (m n : ℕ) (ls : List Log) → m ≤ n → SortedFrom n ls → SortedFrom m ls
SortedFrom-mono m n [] h s = tt
SortedFrom-mono m n (l ∷ ls) h s = (omega arith, s.1)

All-append_one {ℓ κ} :
    {A : Type ℓ} (P : A → Type κ) (xs : List A) (x : A) → All P xs → P x → All P (xs ++ x ∷ [])
All-append_one P [] x h p = (p, tt)
All-append_one P (y ∷ xs) x h p = (h.0, All-append_one P xs x h.1 p)

abbrev Groups : Log → List Log → List LogsBatch → Type 0
Groups c ls bs = (logs_of bs ≡ ls) × All IsBatch bs × Ascending c.block_number bs

Ascending-mono : (m n : ℕ) (bs : List LogsBatch) → m ≤ n → Ascending n bs → Ascending m bs
Ascending-mono m n [] h s = tt
Ascending-mono m n (b ∷ bs) h s = (omega arith, s.1)

groups-Groups :
    (c : Log) (current rest : List Log)
    → 0 < length current
    → All (λ l. l.block_number ≡ c.block_number) current
    → c.block_number < max_uint32
    → SortedFrom c.block_number rest
    → All (λ l. l.block_number < max_uint32) rest
    → Groups c (current ++ rest) (groups c current (rest ++ fake_log ∷ []))
unfolding groups
groups-Groups c current [] full same below s b =
    rw (lt→ltb c.block_number max_uint32 below)
      (refl, (record { inhabited = full; one_block = same }, tt), (omega arith, tt))
groups-Groups c current (x ∷ rest) full same below s b =
    elim (Bool-cases (ltb c.block_number x.block_number)) [
      | inl later ↦
          let (e, p, a) = groups-Groups x (x ∷ []) rest (omega arith) (refl, tt) b.0 s.1 b.1 in
          rw later (
            ap (◌++◌ current) e,
            (record { inhabited = full; one_block = same }, p),
            (
              omega arith,
              Ascending-mono (suc c.block_number) x.block_number _ (ltb→lt _ _ later) a,
            ),
          )
      | inr same_block ↦
          let now : x.block_number ≡ c.block_number = ground arith in
          let longer =
            groups-Groups c (current ++ x ∷ []) rest (omega (arith, length-append current (x ∷ [])))
              (All-append_one (λ l. l.block_number ≡ c.block_number) current x same now) below
              (SortedFrom-mono c.block_number x.block_number rest (omega arith) s.1) b.1 in
          rw same_block (
            subst (λ ls. Groups c ls (groups c (current ++ x ∷ []) (rest ++ fake_log ∷ [])))
              (append_assoc current (x ∷ []) rest) longer)
    ]

split-groups :
    (c : Log) (rest : List Log)
    → split_logs_in_batches (c ∷ rest) ≡ groups c (c ∷ []) (rest ++ fake_log ∷ [])
unfolding split_logs_in_batches
split-groups c rest = rw (le→ltb_false c.block_number c.block_number (omega arith)) (
    logs_loop-groups (c ∷ (rest ++ fake_log ∷ [])) [] c [] (rest ++ fake_log ∷ []) 1 0 refl refl
      (omega arith))

-- For logs in the order of their blocks, all before block 2^32 - 1, the batches of
-- SplitLogsInBatches put end to end are the logs, no batch is empty, each holds only logs of its
-- own block number, and the block numbers rise from one batch to the next.
pub split_logs_in_batches-IsBatch :
    (logs : List Log)
    → SortedFrom 0 logs
    → All (λ l. l.block_number < max_uint32) logs
    → (logs_of (split_logs_in_batches logs) ≡ logs)
      × All IsBatch (split_logs_in_batches logs)
      × Ascending 0 (split_logs_in_batches logs)
split_logs_in_batches-IsBatch [] s b = unfold split_logs_in_batches in (refl, tt, tt)
split_logs_in_batches-IsBatch (c ∷ rest) s b =
    let (e, p, a) = groups-Groups c (c ∷ []) rest (omega arith) (refl, tt) b.0 s.1 b.1 in
    rw (split-groups c rest) (e, p, Ascending-mono 0 c.block_number _ (omega arith) a)
