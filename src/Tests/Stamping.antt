-- ===== src/Tests/Stamping.antt =====
-- Timestamps of three blocks with logs, one of them known, and of one without.
use tokenbridge_monitor.Base.{ℕ, ◌≡◌, refl, String, [], ◌∷◌}
use tokenbridge_monitor.Entity.{BlockTimestamp}
use tokenbridge_monitor.Config.Init.{get_chain_config}
use tokenbridge_monitor.Repo.Store.{Store}
use tokenbridge_monitor.Repo.Table.{upsert_row}
use tokenbridge_monitor.Repo.Ensure.Upserts.{ensure_block_timestamp}
use tokenbridge_monitor.Exec.{Result, ok, query, continue, statement, lift, ◌>>=◌}
use tokenbridge_monitor.Exec.Retryable.{clean}
use tokenbridge_monitor.Cmd.Timestamps.{
  fix_block_timestamps, insert_timestamps, delete_unneeded, logs_without_timestamp,
}
use tokenbridge_monitor.Cmd.Timestamps.Fixed.{Fixed, fix_block_timestamps-Fixed}
use tokenbridge_monitor.Tests.Values.{some_store}
use tokenbridge_monitor.Tests.Presenting.{some_config}

abbrev stamp : ℕ → BlockTimestamp
stamp n = record { chain_id = "100"; block_number = n; timestamp = n }

abbrev told : String → ℕ → Result ℕ
told chain_id n = ok n

abbrev unfixed : Store
unfixed = record some_store { block_timestamps = stamp 105 ∷ stamp 106 ∷ [] }

abbrev fixed : Store
fixed = record some_store { block_timestamps = stamp 105 ∷ stamp 101 ∷ stamp 107 ∷ [] }

fixed_test : fix_block_timestamps some_config told (clean unfixed) ≡ (ok tt, clean fixed)
unfolding fix_block_timestamps insert_timestamps delete_unneeded logs_without_timestamp
    ensure_block_timestamp upsert_row statement query continue lift ◌>>=◌ get_chain_config
fixed_test = refl

fix_block_timestamps-Fixed_example :
    (t : Store) × (fix_block_timestamps some_config told (clean unfixed) ≡ (ok tt, clean t))
    × Fixed some_config told unfixed t
unfolding get_chain_config
fix_block_timestamps-Fixed_example =
    fix_block_timestamps-Fixed some_config told unfixed
      ((refl, (101, refl)), ((refl, (105, refl)), ((refl, (107, refl)), tt)))
