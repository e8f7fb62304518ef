-- ===== src/Monitor/ContractMonitor/Submit.antt =====
-- What submitLogs sends: all logs in the order of their blocks, and at the end the last block.
use tokenbridge_monitor.Base.{
  ℕ, suc, ◌≤◌, ◌<◌, ◌≡◌, refl, sym, ap, ◌∙◌, inl, inr, subst, some, List, [], ◌∷◌, ◌++◌, arith, ltb,
  Bool-cases, All, length,
}
use tokenbridge_monitor.Entity.{Log}
use tokenbridge_monitor.Repo.Find.Sorted.{SortedFrom}
use tokenbridge_monitor.Monitor.Types.{LogsBatch, max_uint32, split_logs_in_batches}
use tokenbridge_monitor.Monitor.Types.SplitLogs.{
  IsBatch, Ascending, logs_of, split_logs_in_batches-IsBatch,
}
use tokenbridge_monitor.Monitor.ContractMonitor.{last_block, closing, submitted}

abbrev end_batch : ℕ → LogsBatch
end_batch n = record { block_number = n; logs = [] }

-- All batches are of blocks up to `n`.
abbrev UpTo : ℕ → List LogsBatch → Type 0
UpTo n bs = All (λ b. b.block_number ≤ n) bs

module _ {μ} {B : Type 0} (Q : B → Type μ) where
  All-append_left : (front back : List B) → All Q (front ++ back) → All Q front
  All-append_left [] back h = tt
  All-append_left (y ∷ front) back h = (h.0, All-append_left front back h.1)

  All-append_right : (front back : List B) → All Q (front ++ back) → All Q back
  All-append_right [] back h = h
  All-append_right (y ∷ front) back h = All-append_right front back h.1

batch_bound :
    (n m : ℕ) (logs : List Log)
    → 0 < length logs
    → All (λ l. l.block_number ≡ m) logs
    → All (λ l. l.block_number ≤ n) logs
    → m ≤ n
batch_bound n m [] h e b = absurd (omega arith)
batch_bound n m (l ∷ logs) h e b = omega arith

batches-UpTo :
    (n : ℕ) (bs : List LogsBatch)
    → All IsBatch bs
    → All (λ l. l.block_number ≤ n) (logs_of bs)
    → UpTo n bs
batches-UpTo n [] p h = tt
batches-UpTo n (b ∷ bs) p h = (
  batch_bound n b.block_number b.logs p.0.inhabited p.0.one_block
      (All-append_left (λ l. l.block_number ≤ n) b.logs (logs_of bs) h),
  batches-UpTo n bs p.1 (All-append_right (λ l. l.block_number ≤ n) b.logs (logs_of bs) h),
)

All-below :
    (n m : ℕ)
    → n < m
    → (logs : List Log) → All (λ l. l.block_number ≤ n) logs
    → All (λ l. l.block_number < m) logs
All-below n m h [] u = tt
All-below n m h (l ∷ logs) u = (omega arith, All-below n m h logs u.1)

abbrev Closes : ℕ → ℕ → List LogsBatch → List LogsBatch → Type 0
Closes from n bs out = (logs_of out ≡ logs_of bs) × Ascending from out × (last_block out ≡ some n)

closing-Closes :
    (from n : ℕ) (bs : List LogsBatch)
    → from ≤ n
    → Ascending from bs
    → UpTo n bs
    → Closes from n bs (bs ++ closing bs n)
closing-Closes from n [] l a u = (refl, (l, tt), refl)
closing-Closes from n (b ∷ []) l a u = elim (Bool-cases (ltb b.block_number n)) [
  | inl more ↦ rw more (refl, (a.0, (ground arith, tt)), refl)
  | inr done ↦ rw done (refl, (a.0, tt), ap (λ k. some k) (ground arith))
]
closing-Closes from n (b ∷ c ∷ bs) l a u =
    let (e, r, last) = closing-Closes (suc b.block_number) n (c ∷ bs) (omega arith) a.1 u.1 in
    (ap (λ ls. b.logs ++ ls) e, (a.0, r), last)

-- For logs in the order of their blocks and up to block `end_block`, which is before 2^32 - 1, the
-- batches that submitLogs sends hold these logs in their order, their block numbers rise, and the
-- last one is of block `end_block`: processing them takes the cursor to the end of the range.
pub submitted_lem :
    (logs : List Log) (end_block : ℕ)
    → SortedFrom 0 logs
    → All (λ l. l.block_number ≤ end_block) logs
    → end_block < max_uint32
    → (logs_of (submitted logs end_block) ≡ logs)
      × Ascending 0 (submitted logs end_block)
      × (last_block (submitted logs end_block) ≡ some end_block)
unfolding submitted
submitted_lem logs end_block s u l =
    let (e, p, a) =
      split_logs_in_batches-IsBatch logs s (All-below end_block max_uint32 l logs u) in
    let up_to =
      batches-UpTo end_block (split_logs_in_batches logs) p
        (subst (All (λ x. x.block_number ≤ end_block)) (sym e) u) in
    let (e', r, last) =
      closing-Closes 0 end_block (split_logs_in_batches logs) (omega arith) a up_to in
    (e' ∙ e, r, last)
