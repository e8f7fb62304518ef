-- ===== src/Repo/Ensure/Logs.antt =====
-- repository/postgres/logs.go, Ensure: the rows are numbered, and the ids come back in their order.
use tokenbridge_monitor.Base.{
  ℕ, ◌+◌, Bool, true, false, ◌&&◌, ◌||◌, ◌==◌, none, some, List, [], ◌∷◌, ◌++◌, any, find_by,
  nat_eq, string_eq,
}
use Prim.Native.Nat.{max}
use tokenbridge_monitor.Entity.{Log}
use tokenbridge_monitor.Exec.{Exec, ok, err, constraint, call, ◌>>◌}

-- The unique index on `logs`.
abbrev pub same_log : Log → Log → Bool
same_log a b =
    a.chain_id == b.chain_id && a.block_number == b.block_number && a.log_index == b.log_index

-- The next value of the serial column; only that it is new matters.
abbrev fresh_id : List Log → ℕ
fresh_id [] = 1
fresh_id (l ∷ ls) = max (l.id + 1) (fresh_id ls)

-- The row with the key of `log`, or a new one.
unfoldable pub place_log : Log → List Log → List Log × Log
place_log log rows = elim (find_by (same_log log) rows) [
  | some r ↦ (rows, record log { id = r.id })
  | none ↦ (rows ++ record log { id = fresh_id rows } ∷ [], record log { id = fresh_id rows })
]

unfoldable pub place_logs : List Log → List Log → List Log × List Log
unfolding place_log
place_logs [] rows = (rows, [])
place_logs (log ∷ logs) rows =
    let (rows', log') = place_log log rows in
    let (rows'', logs') = place_logs logs rows' in (rows'', log' ∷ logs')

-- One command may not meet a key twice.
abbrev pub repeated : List Log → Bool
repeated [] = false
repeated (log ∷ logs) = any (same_log log) logs || repeated logs

abbrev pub place : Bool → List Log × List Log → Exec (List Log)
place true p s = (err constraint, s)
place false (rows, logs') s = (ok logs', record s { store = record s.store { logs = rows } })

unfoldable pub ensure_logs : List Log → Exec (List Log)
unfolding place_logs
ensure_logs logs = call >> λ s. place (repeated logs) (place_logs logs s.store.logs) s
