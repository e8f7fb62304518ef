-- ===== src/Cmd/Timestamps.antt =====
-- cmd/fix_block_timestamps/main.go: timestamps of blocks without logs are deleted, and those of
-- blocks with logs are asked of the nodes and inserted. Blocks come in the order of their first log.
pub mod Blocks
pub mod Inserted
pub mod Fixed
use tokenbridge_monitor.Base.{
  ℕ, String, Bool, not, ◌&&◌, Option, none, some, List, [], ◌∷◌, any, filter_by, ◌==◌, nat_eq,
  string_eq, if◌then◌else◌,
}
use tokenbridge_monitor.Entity.{Log, BlockTimestamp}
use tokenbridge_monitor.Config.{ChainConfig}
use tokenbridge_monitor.Config.Init.{Config, get_chain_config}
use tokenbridge_monitor.Repo.Store.{Store}
use tokenbridge_monitor.Repo.Ensure.Upserts.{ensure_block_timestamp}
use tokenbridge_monitor.Exec.{
  Result, ok, err, unknown_chain, Exec, lift, query, statement, ◌>>=◌, ◌>>◌,
}

abbrev pub is_of_block : Log → BlockTimestamp → Bool
is_of_block l bt = l.chain_id == bt.chain_id && l.block_number == bt.block_number

unfoldable pub delete_unneeded : Exec Unit
delete_unneeded = statement λ s. some (record s {
  block_timestamps = filter_by (λ bt. any (λ l. is_of_block l bt) s.logs) s.block_timestamps;
})

abbrev pub has_timestamp : Store → Log → Bool
has_timestamp s l = any (is_of_block l) s.block_timestamps

unfoldable pub logs_without_timestamp : Exec (List Log)
logs_without_timestamp = query λ s. ok (filter_by (λ l. not (has_timestamp s l)) s.logs)

abbrev same_block : Log → Log → Bool
same_block a b = a.chain_id == b.chain_id && a.block_number == b.block_number

-- One entry of the map for each block.
abbrev pub blocks_of : List Log → List Log → List Log
blocks_of marked [] = []
blocks_of marked (l ∷ ls) =
    let rest = blocks_of (l ∷ marked) ls in
    let others = blocks_of marked ls in
    if any (λ x. same_block x l) marked then others else l ∷ rest

-- A chain that is not configured, or a node that does not answer, ends the program.
abbrev known_chain : Option ChainConfig → Result (Unit {0})
known_chain none = err unknown_chain
known_chain (some cfg) = ok tt

module _ (cfg : Config) (header_time : String → ℕ → Result ℕ) where
  unfoldable pub insert_timestamps : List Log → Exec Unit
  insert_timestamps [] = lift (ok tt)
  insert_timestamps (l ∷ ls) = do
    lift (known_chain (get_chain_config cfg l.chain_id))
    time ← lift (header_time l.chain_id l.block_number)
    ensure_block_timestamp
        (record { chain_id = l.chain_id; block_number = l.block_number; timestamp = time })
    insert_timestamps ls

  unfoldable pub fix_block_timestamps : Exec Unit
  unfolding insert_timestamps delete_unneeded logs_without_timestamp
  fix_block_timestamps = do
    delete_unneeded
    logs ← logs_without_timestamp
    insert_timestamps (blocks_of [] logs)
