-- ===== src/Ethclient.antt =====
-- ethclient/ethclient.go: the requests for logs. What the node answers is a parameter; that a
-- request may fail is the business of the session.
use tokenbridge_monitor.Base.{ℕ, List, ltb, leb, if◌then◌else◌}
use tokenbridge_monitor.Entity.{Address, Hash, EthLog}
use tokenbridge_monitor.Exec.{
  Result, ok, err, panic, invalid_logs_query, node_is_not_synced, Exec, lift, query, ◌>>=◌,
}

-- `ethereum.FilterQuery` as the monitor fills it: no block hash, and both ends given.
pub record FilterQuery : Type 0 where
  pub from_block : ℕ
  pub to_block : ℕ
  pub addresses : List Address
  pub topics : List (List Hash)

-- `get_logs` is eth_getLogs; `block_number` is the eth_blockNumber of the same batch of requests.
pub record Node : Type 0 where
  pub get_logs : FilterQuery → Result (List EthLog)
  pub block_number : FilterQuery → Result ℕ

unfoldable pub filter_logs : Node → FilterQuery → Exec (List EthLog)
filter_logs node q = query λ _. node.get_logs q

-- The argument is refused unless `toBlock` is positive.
unfoldable pub to_filter_arg : FilterQuery → Result FilterQuery
to_filter_arg q = if leb q.to_block 0 then err invalid_logs_query else ok q

abbrev if_synced : FilterQuery → List EthLog → ℕ → Result (List EthLog)
if_synced q logs n = if ltb n q.to_block then err node_is_not_synced else ok logs

abbrev both : FilterQuery → Result (List EthLog) → Result ℕ → Result (List EthLog)
both q (ok logs) (ok n) = if_synced q logs n
both q (ok logs) (err e) = err e
both q (ok logs) panic = panic
both q (err e) n = err e
both q panic n = panic

-- FilterLogsSafe gives logs only if the node has reached the end of the range.
unfoldable pub filter_logs_safe : Node → FilterQuery → Exec (List EthLog)
unfolding to_filter_arg
filter_logs_safe node q = do
  arg ← lift (to_filter_arg q)
  query λ _. both arg (node.get_logs arg) (node.block_number arg)
