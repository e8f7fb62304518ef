-- ===== src/Repo/Find/Sorted.antt =====
-- The order of the logs that a query or a fetch yields.
use tokenbridge_monitor.Base.{
  ℕ, ◌≤◌, ◌<◌, ◌≡◌, ◌⊎◌, ltb, refl, inl, inr, Bool, true, false, List, [], ◌∷◌, arith, nat_eq,
  length, filter_by, All, Bool-cases,
}
use tokenbridge_monitor.Entity.{Log}
use tokenbridge_monitor.Repo.Find.{log_before, insert_log, sort_logs}

-- The logs stand in the order of their blocks, from block `n` on.
abbrev pub SortedFrom : ℕ → List Log → Type 0
SortedFrom n [] = Unit
SortedFrom n (l ∷ ls) = (n ≤ l.block_number) × SortedFrom l.block_number ls

log_before_block : (a b : Log) → log_before a b ≡ true → a.block_number ≤ b.block_number
log_before_block a b h = ground arith

after_block : (a b : Log) → log_before a b ≡ false → b.block_number ≤ a.block_number
after_block a b h = ground arith

insert_log-SortedFrom :
    (n : ℕ) (l : Log) (ls : List Log)
    → n ≤ l.block_number
    → SortedFrom n ls
    → SortedFrom n (insert_log l ls)
insert_log-SortedFrom n l [] h s = (h, tt)
insert_log-SortedFrom n l (x ∷ xs) h s = elim (Bool-cases (log_before x l)) [
  | inl later ↦
      rw later (s.0, insert_log-SortedFrom x.block_number l xs (log_before_block x l later) s.1)
  | inr first ↦ rw first (h, (after_block x l first, s.1))
]

pub sort_logs-SortedFrom : (ls : List Log) → SortedFrom 0 (sort_logs ls)
unfolding sort_logs
sort_logs-SortedFrom [] = tt
sort_logs-SortedFrom (l ∷ ls) =
    insert_log-SortedFrom 0 l (sort_logs ls) (omega arith) (sort_logs-SortedFrom ls)

abbrev pub count_by : (Log → Bool) → List Log → ℕ
count_by p ls = length (filter_by p ls)

count_by-insert_log :
    (p : Log → Bool) (l : Log) (ls : List Log) → count_by p (insert_log l ls) ≡ count_by p (l ∷ ls)
count_by-insert_log p l [] = refl
count_by-insert_log p l (x ∷ xs) = ground (arith, count_by-insert_log p l xs)

count_by-sort_logs : (p : Log → Bool) (ls : List Log) → count_by p (sort_logs ls) ≡ count_by p ls
unfolding sort_logs
count_by-sort_logs p [] = refl
count_by-sort_logs p (l ∷ ls) =
    ground (arith, count_by-insert_log p l (sort_logs ls), count_by-sort_logs p ls)

-- By block, and in a block by the index.
abbrev pub Precedes : Log → Log → Type 0
Precedes a b =
    (a.block_number < b.block_number)
    ⊎ ((a.block_number ≡ b.block_number) × (a.log_index ≤ b.log_index))

abbrev pub LogsAfter : Log → List Log → Type 0
LogsAfter a [] = Unit
LogsAfter a (l ∷ ls) = Precedes a l × LogsAfter l ls

-- Each log precedes the next.
abbrev pub InLogOrder : List Log → Type 0
InLogOrder [] = Unit
InLogOrder (l ∷ ls) = LogsAfter l ls

log_before-Precedes : (a b : Log) → log_before a b ≡ true → Precedes a b
log_before-Precedes a b h = elim (Bool-cases (ltb a.block_number b.block_number)) [
  | inl less ↦ inl (ground arith)
  | inr more ↦ inr (ground arith, ground arith)
]

not_before-Precedes : (a b : Log) → log_before a b ≡ false → Precedes b a
not_before-Precedes a b h = elim (Bool-cases (ltb b.block_number a.block_number)) [
  | inl less ↦ inl (ground arith)
  | inr more ↦ inr (ground arith, ground arith)
]

insert_log-LogsAfter :
    (a l : Log) (ls : List Log) → Precedes a l → LogsAfter a ls → LogsAfter a (insert_log l ls)
insert_log-LogsAfter a l [] p s = (p, tt)
insert_log-LogsAfter a l (x ∷ xs) p s = elim (Bool-cases (log_before x l)) [
  | inl later ↦ rw later (s.0, insert_log-LogsAfter x l xs (log_before-Precedes x l later) s.1)
  | inr first ↦ rw first (p, (not_before-Precedes x l first, s.1))
]

insert_log-InLogOrder : (l : Log) (ls : List Log) → InLogOrder ls → InLogOrder (insert_log l ls)
insert_log-InLogOrder l [] s = tt
insert_log-InLogOrder l (x ∷ xs) s = elim (Bool-cases (log_before x l)) [
  | inl later ↦ rw later (insert_log-LogsAfter x l xs (log_before-Precedes x l later) s)
  | inr first ↦ rw first (not_before-Precedes x l first, s)
]

sort_logs-InLogOrder : (ls : List Log) → InLogOrder (sort_logs ls)
unfolding sort_logs
sort_logs-InLogOrder [] = tt
sort_logs-InLogOrder (l ∷ ls) = insert_log-InLogOrder l (sort_logs ls) (sort_logs-InLogOrder ls)

-- The sorted logs are in the order of their blocks and, within a block, of their indices, and of the
-- logs that pass any test there are as many in them as in the logs given.
pub sort_logs_lem :
    (ls : List Log)
    → InLogOrder (sort_logs ls) × ((p : Log → Bool) → count_by p (sort_logs ls) ≡ count_by p ls)
sort_logs_lem ls = (sort_logs-InLogOrder ls, λ p. count_by-sort_logs p ls)

module _ {μ} (Q : Log → Type μ) where
  insert_log-All : (l : Log) (ls : List Log) → Q l → All Q ls → All Q (insert_log l ls)
  insert_log-All l [] q h = (q, tt)
  insert_log-All l (x ∷ xs) q h = elim (Bool-cases (log_before x l)) [
    | inl later ↦ rw later (h.0, insert_log-All l xs q h.1)
    | inr first ↦ rw first (q, (h.0, h.1))
  ]

  pub sort_logs-All : (ls : List Log) → All Q ls → All Q (sort_logs ls)
  unfolding sort_logs
  sort_logs-All [] h = tt
  sort_logs-All (l ∷ ls) h = insert_log-All l (sort_logs ls) h.0 (sort_logs-All ls h.1)
