-- ===== src/Monitor/ContractMonitor/Steps/Found.antt =====
-- The logs that tryToFetchLogs submits stand in the order of their blocks.
use tokenbridge_monitor.Base.{
  ℕ, ◌≡◌, refl, ap, subst, Bool, true, false, Option, none, some, List, [], ◌∷◌, find_by,
}
use tokenbridge_monitor.Entity.{Log}
use tokenbridge_monitor.Exec.{Result, ok, err, panic, Session, Exec, lift, continue, ◌>>=◌, call}
use tokenbridge_monitor.Ethclient.{Node}
use tokenbridge_monitor.Repo.Find.{sort_logs}
use tokenbridge_monitor.Repo.Find.Sorted.{SortedFrom, sort_logs-SortedFrom}
use tokenbridge_monitor.Repo.Ensure.Logs.{
  place_log, place_logs, repeated, place, ensure_logs, same_log,
}
use tokenbridge_monitor.Monitor.Types.{BlocksRange}
use tokenbridge_monitor.Monitor.ContractMonitor.{Contract}
use tokenbridge_monitor.Monitor.ContractMonitor.Fetcher.{
  build_filter_queries, fetch_logs, save_logs, find_and_save,
}

-- Where a bind succeeds, both halves do.
continue-ok :
    {A B : Type 0} (r : Result A) (f : A → Exec B) (s s' : Session) (b : B)
    → continue r f s ≡ (ok b, s')
    → (a : A) × (r ≡ ok a) × (f a s ≡ (ok b, s'))
unfolding continue
continue-ok (ok a) f s s' b h = (a, refl, h)
continue-ok (err e) f s s' b h = absurd (cc (ap (λ p. p.0) h))
continue-ok panic f s s' b h = absurd (cc (ap (λ p. p.0) h))

place_log-block :
    (log : Log) (rows : List Log) → (place_log log rows).1.block_number ≡ log.block_number
unfolding place_log
place_log-block log rows = go (find_by (same_log log) rows) refl
  where
    go :
        (o : Option Log)
        → find_by (same_log log) rows ≡ o
        → (place_log log rows).1.block_number ≡ log.block_number
    go none e = rw (e, place_log) refl
    go (some r) e = rw (e, place_log) refl

place_logs-SortedFrom :
    (n : ℕ) (logs rows : List Log) → SortedFrom n logs → SortedFrom n (place_logs logs rows).1
unfolding place_logs
place_logs-SortedFrom n [] rows s = tt
place_logs-SortedFrom n (l ∷ ls) rows s =
    rw (place_log-block l rows)
      (s.0, place_logs-SortedFrom l.block_number ls (place_log l rows).0 s.1)

place-ok :
    (again : Bool) (p : List Log × List Log) (s s' : Session) (logs : List Log)
    → place again p s ≡ (ok logs, s')
    → p.1 ≡ logs
place-ok true p s s' logs h = absurd (cc (ap (λ q. q.0) h))
place-ok false p s s' logs h = cc (ap (λ q. q.0) h)

save_logs-SortedFrom :
    (found logs : List Log) (s s' : Session)
    → SortedFrom 0 found
    → save_logs found s ≡ (ok logs, s')
    → SortedFrom 0 logs
unfolding ensure_logs ◌>>=◌ lift
save_logs-SortedFrom [] logs s s' sorted h =
    let e : [] ≡ logs = cc (ap (λ q. q.0) h) in subst (SortedFrom 0) e tt
save_logs-SortedFrom (l ∷ ls) logs s s' sorted h =
    let (u, e, w) = continue-ok (call s).0 _ (call s).1 s' logs h in
    subst (SortedFrom 0)
      (place-ok (repeated (l ∷ ls)) (place_logs (l ∷ ls) (call s).1.store.logs) (call s).1 s' logs
        w)
      (place_logs-SortedFrom 0 (l ∷ ls) (call s).1.store.logs sorted)

-- What tryToFetchLogs has found and saved is in the order of its blocks.
pub find_and_save-SortedFrom :
    (c : Contract) (node : Node) (r : BlocksRange) (s s' : Session) (logs : List Log)
    → find_and_save c node r s ≡ (ok logs, s')
    → SortedFrom 0 logs
unfolding find_and_save ◌>>=◌
find_and_save-SortedFrom c node r s s' logs h =
    let asked = fetch_logs c node (build_filter_queries c r) s in
    let (found, e, w) = continue-ok asked.0 _ asked.1 s' logs h in
    save_logs-SortedFrom (sort_logs found) logs asked.1 s' (sort_logs-SortedFrom found) w
