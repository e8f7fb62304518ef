-- ===== src/Monitor/ContractMonitor/Steps/Unprocessed.antt =====
-- What LoadUnprocessedLogs finds in the database at the start.
use tokenbridge_monitor.Base.{
  ℕ, ◌≤◌, ◌≡◌, refl, sym, subst, inl, inr, Bool, true, false, List, [], ◌∷◌, All, arith, filter_by,
  Bool-cases, ◌&&◌,
}
use tokenbridge_monitor.Entity.{Log}
use tokenbridge_monitor.Repo.Store.{Store}
use tokenbridge_monitor.Repo.Find.{matches_filter, find_logs}
use tokenbridge_monitor.Repo.Find.Sorted.{SortedFrom, sort_logs-SortedFrom, sort_logs-All}
use tokenbridge_monitor.Exec.{Result, Session, query}
use tokenbridge_monitor.Exec.Calls.{query_cases}
use tokenbridge_monitor.Exec.Retry.{EndsIn, SucceedsIn, retry, retry-EndsIn}
use tokenbridge_monitor.Monitor.ContractMonitor.{Contract}
use tokenbridge_monitor.Monitor.ContractMonitor.Fetcher.{unprocessed_filter}

-- The logs stand in their order and are of blocks up to `n`.
abbrev pub SortedUpTo : ℕ → List Log → Type 0
SortedUpTo n logs = SortedFrom 0 logs × All (λ l. l.block_number ≤ n) logs

and-split : (a b : Bool) → (a && b) ≡ true → (a ≡ true) × (b ≡ true)
and-split true b h = (refl, h)
and-split false b h = absurd (cc h)

matches-block :
    (c : Contract) (from to : ℕ) (l : Log)
    → matches_filter (unprocessed_filter c from to) l ≡ true
    → l.block_number ≤ to
unfolding matches_filter unprocessed_filter
matches-block c from to l h = ground arith

filter-UpTo :
    (c : Contract) (from to : ℕ) (ls : List Log)
    → All (λ l. l.block_number ≤ to) (filter_by (matches_filter (unprocessed_filter c from to)) ls)
filter-UpTo c from to [] = tt
filter-UpTo c from to (l ∷ ls) =
    elim (Bool-cases (matches_filter (unprocessed_filter c from to) l)) [
      | inl hit ↦ rw hit (matches-block c from to l hit, filter-UpTo c from to ls)
      | inr miss ↦ rw miss (filter-UpTo c from to ls)
    ]

query-SucceedsIn :
    {A : Type 0} (Q : A → Type 0) (f : Store → Result A) (s : Session)
    → ((t : Store) → SucceedsIn Q (f t))
    → SucceedsIn Q (query f s).0
query-SucceedsIn Q f s h = elim (query_cases f s) [
  | inl e ↦ subst (SucceedsIn Q) (sym e) tt
  | inr e ↦ subst (SucceedsIn Q) (sym e) (h s.store)
]

pub found-SortedUpTo :
    (c : Contract) (from to waits : ℕ) (s : Session)
    → EndsIn (SortedUpTo to) (retry waits (find_logs (unprocessed_filter c from to)) s).0
unfolding find_logs
found-SortedUpTo c from to waits s =
    retry-EndsIn (SortedUpTo to) waits (find_logs (unprocessed_filter c from to)) s λ s'.
      query-SucceedsIn (SortedUpTo to) _ s' λ t. (
        sort_logs-SortedFrom (filter_by (matches_filter (unprocessed_filter c from to)) t.logs),
        sort_logs-All _ _ (filter-UpTo c from to t.logs),
      )
