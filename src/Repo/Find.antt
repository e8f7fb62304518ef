-- ===== src/Repo/Find.antt =====
-- The methods of repository/postgres/*.go that read. `GetContext` gives the first row or
-- `ErrNotFound` (db/db.go), `SelectContext` all rows. Where the source leaves the order of rows to
-- the database, they come in the order of insertion; rows of different chains are not reordered.
pub mod Sorted
use tokenbridge_monitor.Base.{
  ℕ, Bool, true, false, ◌&&◌, ◌||◌, ◌==◌, String, Option, none, some, List, [], ◌∷◌, Bytes, leb,
  ltb, length, any, find_by, filter_by, nat_eq, string_eq, bytes_eq, if◌then◌else◌,
}
use tokenbridge_monitor.Entity.{
  Address, Log, LogsFilter, LogsCursor, BlockTimestamp, BridgeValidator,
}
use tokenbridge_monitor.Repo.Store.{Store}
use tokenbridge_monitor.Exec.{Exec, ok, or_not_found, query}

abbrev meets : {A : Type 0} → Option A → (A → Bool) → Bool
meets none p = true
meets (some a) p = p a

-- `sq.Eq{column: values}`, left out where there are no values.
abbrev one_of : List Bytes → Bytes → Bool
one_of [] b = true
one_of (v ∷ vs) b = any (λ w. w == b) (v ∷ vs)

-- A column that may be NULL equals no value.
abbrev one_of_opt : List Bytes → Option Bytes → Bool
one_of_opt [] o = true
one_of_opt (v ∷ vs) none = false
one_of_opt (v ∷ vs) (some b) = any (λ w. w == b) (v ∷ vs)

unfoldable pub matches_filter : LogsFilter → Log → Bool
matches_filter filter l =
    meets filter.chain_id (λ c. l.chain_id == c)
    && one_of filter.addresses l.address
    && meets filter.from_block (λ b. leb b l.block_number)
    && meets filter.to_block (λ b. leb l.block_number b)
    && meets filter.tx_hash (λ h. l.transaction_hash == h)
    && one_of_opt filter.topic0 l.topic0
    && one_of_opt filter.topic1 l.topic1
    && one_of_opt filter.topic2 l.topic2
    && one_of_opt filter.topic3 l.topic3
    && meets filter.data_length (λ n. length l.payload == n)

-- `a.BlockNumber < b.BlockNumber || (a.BlockNumber == b.BlockNumber && a.LogIndex < b.LogIndex)`
abbrev pub log_before : Log → Log → Bool
log_before a b =
    ltb a.block_number b.block_number
    || (a.block_number == b.block_number && ltb a.log_index b.log_index)

abbrev pub insert_log : Log → List Log → List Log
insert_log l [] = l ∷ []
insert_log l (x ∷ xs) = if log_before x l then x ∷ insert_log l xs else l ∷ x ∷ xs

-- `sort.Slice(logs, …)` by this order, written as an insertion sort. Which of two logs with the same
-- block and index comes first the library leaves open; one chain has no two such logs.
unfoldable pub sort_logs : List Log → List Log
sort_logs [] = []
sort_logs (l ∷ ls) = insert_log l (sort_logs ls)

unfoldable pub find_logs : LogsFilter → Exec (List Log)
unfolding matches_filter sort_logs
find_logs filter = query λ s. ok (sort_logs (filter_by (matches_filter filter) s.logs))

unfoldable pub get_log_by_id : ℕ → Exec Log
get_log_by_id id = query λ s. or_not_found (find_by (λ l. l.id == id) s.logs)

unfoldable pub find_logs_by_ids : List ℕ → Exec (List Log)
unfolding sort_logs
find_logs_by_ids ids =
    query λ s. ok (sort_logs (filter_by (λ l. any (λ id. l.id == id) ids) s.logs))

unfoldable pub get_logs_cursor : String → Address → Exec LogsCursor
get_logs_cursor chain_id addr =
    query
      λ s. or_not_found (find_by (λ r. r.chain_id == chain_id && r.address == addr) s.logs_cursors)

unfoldable pub get_block_timestamp : String → ℕ → Exec BlockTimestamp
get_block_timestamp chain_id block_number = query λ s.
    or_not_found
      (find_by (λ r. r.chain_id == chain_id && r.block_number == block_number) s.block_timestamps)

abbrev is_none : {A : Type 0} → Option A → Bool
is_none none = true
is_none (some a) = false

abbrev pub is_active : String → String → BridgeValidator → Bool
is_active bridge_id chain_id v =
    v.bridge_id == bridge_id && v.chain_id == chain_id && is_none v.removed_log_id

unfoldable pub active_validator : String → String → Address → Store → Option BridgeValidator
active_validator bridge_id chain_id address s =
    find_by (λ v. is_active bridge_id chain_id v && v.address == address) s.bridge_validators

unfoldable pub get_active_validator : String → String → Address → Exec BridgeValidator
unfolding active_validator
get_active_validator bridge_id chain_id address =
    query λ s. or_not_found (active_validator bridge_id chain_id address s)

unfoldable pub find_active_validators : String → String → Exec (List BridgeValidator)
find_active_validators bridge_id chain_id =
    query λ s. ok (filter_by (is_active bridge_id chain_id) s.bridge_validators)
