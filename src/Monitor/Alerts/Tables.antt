-- ===== src/Monitor/Alerts/Tables.antt =====
-- What the queries of db_alerts_provider.go share: their parameters (job.go), a row with the log and
-- the block it comes from, and the time up to which both sides are processed. The age of a row,
-- `now()` less the time of its block, is kept as that time.
use tokenbridge_monitor.Base.{
  ℕ, String, Bool, ◌&&◌, ◌||◌, not, Option, none, some, List, [], ◌∷◌, map, ◌==◌, nat_eq, string_eq,
  leb, ltb, filter_by, if◌then◌else◌,
}
use tokenbridge_monitor.Entity.{Address, Hash, Log, BlockTimestamp, LogsCursor}
use tokenbridge_monitor.Repo.Store.{Store}
use tokenbridge_monitor.Repo.Join.{join, bytes_before}
use tokenbridge_monitor.Exec.{Result, ok, err, null_value, Exec, query}

pub record AlertJobParams : Type 0 where
  pub bridge : String
  pub home_chain_id : String
  pub foreign_chain_id : String
  pub home_start_block_number : ℕ
  pub foreign_start_block_number : ℕ
  pub home_bridge_address : Address
  pub foreign_bridge_address : Address
  pub home_whitelisted_senders : List Address

-- The columns that every alert has.
pub record Place : Type 0 where
  pub chain_id : String
  pub block_number : ℕ
  pub timestamp : ℕ
  pub transaction_hash : Hash

abbrev pub Located : Type 0 → Type 0
Located A = (A × Log) × BlockTimestamp

abbrev pub place_of : {A : Type 0} → Located A → Place
place_of ((row, l), bt) = record {
  chain_id = l.chain_id;
  block_number = l.block_number;
  timestamp = bt.timestamp;
  transaction_hash = l.transaction_hash;
}

abbrev pub row_of : {A : Type 0} → Located A → A
row_of ((row, l), bt) = row

-- JOIN logs l ON l.id = row.log_id
-- JOIN block_timestamps bt ON bt.chain_id = l.chain_id AND bt.block_number = l.block_number
abbrev pub located : {A : Type 0} → (A → ℕ) → Store → List A → List (Located A)
located log_id s rows =
    join (λ r bt. bt.chain_id == r.1.chain_id && bt.block_number == r.1.block_number)
      (join (λ row l. l.id == log_id row) rows s.logs) s.block_timestamps

abbrev pub on_home : {A : Type 0} → AlertJobParams → Located A → Bool
on_home params ((row, l), bt) =
    l.chain_id == params.home_chain_id && leb params.home_start_block_number l.block_number

abbrev pub on_foreign : {A : Type 0} → AlertJobParams → Located A → Bool
on_foreign params ((row, l), bt) =
    l.chain_id == params.foreign_chain_id && leb params.foreign_start_block_number l.block_number

abbrev pub on_either : {A : Type 0} → AlertJobParams → Located A → Bool
on_either params r = on_home params r || on_foreign params r

-- `bt.timestamp <= …`
abbrev pub processed_by : {A : Type 0} → ℕ → Located A → Bool
processed_by t ((row, l), bt) = leb bt.timestamp t

-- `lc.address >= …`, in the order of bytes.
abbrev at_least_address : Address → Address → Bool
at_least_address address bound = not (bytes_before address bound)

abbrev counted_cursor : AlertJobParams → LogsCursor → Bool
counted_cursor params lc =
    (lc.chain_id == params.home_chain_id && at_least_address lc.address params.home_bridge_address)
    || (lc.chain_id == params.foreign_chain_id
        && at_least_address lc.address params.foreign_bridge_address)

abbrev pub minimum : List ℕ → Option ℕ
minimum [] = none
minimum (n ∷ ns) = elim (minimum ns) [ none ↦ some n | some m ↦ some (if ltb m n then m else n) ]

-- A NULL does not fit the variable that it is read into.
abbrev pub or_null {ℓ} : {A : Type ℓ} → Option A → Result A
or_null none = err null_value
or_null (some a) = ok a

abbrev pub processed_times : AlertJobParams → Store → List ℕ
processed_times params s =
    map (λ (r : LogsCursor × BlockTimestamp). r.1.timestamp)
      (join (λ lc lcb. lc.chain_id == lcb.chain_id && lcb.block_number == lc.last_processed_block)
        (filter_by (counted_cursor params) s.logs_cursors) s.block_timestamps)

unfoldable pub find_min_processed_time : AlertJobParams → Exec ℕ
find_min_processed_time params = query λ s. or_null (minimum (processed_times params s))
