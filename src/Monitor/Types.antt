-- ===== src/Monitor/Types.antt =====
-- monitor/types.go: how a block range is cut for the node, and sorted logs into the batches of one
-- block. `uint` arithmetic wraps at 2^64. The loop over blocks takes fuel and answers `none` where
-- that runs out; `SplitRange` shows that one round for each block is enough. A list that the source
-- grows by `append` is given from its first element on.
pub mod SplitRange
pub mod SplitLogs
use tokenbridge_monitor.Base.{
  ℕ, zero, suc, ◌+◌, ◌-◌, ◌^◌, Option, none, some, List, [], ◌∷◌, ◌++◌, if◌then◌else◌, leb, ltb,
  add_uint, sub_uint, get_elem?, take, drop,
}
use mathlib.Core.Option
use tokenbridge_monitor.Entity.{Log}

pub record BlocksRange : Type 0 where
  pub from : ℕ
  pub to : ℕ

pub record LogsBatch : Type 0 where
  pub block_number : ℕ
  pub logs : List Log

-- The last block of the batch that starts at `from_block`.
batch_to_block : ℕ → ℕ → ℕ → ℕ
batch_to_block from_block to_block max_size =
    let batch_to = sub_uint (add_uint from_block max_size) 1 in
    if ltb to_block batch_to then to_block else batch_to

split_loop : ℕ → ℕ → ℕ → ℕ → Option (List BlocksRange)
split_loop zero from_block to_block max_size = none
split_loop (suc fuel) from_block to_block max_size =
    let rest = split_loop fuel (add_uint from_block max_size) to_block max_size in
    let range : BlocksRange = record {
      from = from_block;
      to = batch_to_block from_block to_block max_size;
    } in
    if leb from_block to_block then Option.map (◌∷◌ range) rest else some []

unfoldable pub split_block_range : ℕ → ℕ → ℕ → Option (List BlocksRange)
unfolding split_loop batch_to_block
split_block_range from_block to_block max_size =
    split_loop (suc (to_block + 1 - from_block)) from_block to_block max_size

-- `&entity.Log{BlockNumber: math.MaxUint32}`, appended so that the last batch is closed too.
abbrev pub max_uint32 : ℕ
max_uint32 = 2 ^ 32 - 1

abbrev fake_log : Log
fake_log = record {
  id = 0;
  chain_id = "";
  address = [];
  topic0 = none;
  topic1 = none;
  topic2 = none;
  topic3 = none;
  payload = [];
  block_number = max_uint32;
  log_index = 0;
  transaction_hash = [];
}

-- The block of `logs[i]`; the loop only asks for indices that it has passed.
abbrev block_at : List Log → ℕ → ℕ
block_at logs i = elim (get_elem? logs i) [ none ↦ 0 | some l ↦ l.block_number ]

-- `logs` is the whole list, `rest` what the loop has still to visit, `i` the index of its head.
logs_loop : List Log → List Log → ℕ → ℕ → List LogsBatch
logs_loop logs [] i batch_start_index = []
logs_loop logs (log ∷ rest) i batch_start_index =
    let start_block = block_at logs batch_start_index in
    let closed = logs_loop logs rest (i + 1) i in
    let longer = logs_loop logs rest (i + 1) batch_start_index in
    let batch : LogsBatch = record {
      block_number = start_block;
      logs = take (i - batch_start_index) (drop batch_start_index logs);
    } in
    if ltb start_block log.block_number then batch ∷ closed else longer

unfoldable pub split_logs_in_batches : List Log → List LogsBatch
unfolding logs_loop
split_logs_in_batches logs = let all = logs ++ fake_log ∷ [] in logs_loop all all 0 0
