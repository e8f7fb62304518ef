-- ===== src/Tests/Alerting.antt =====
-- Alerts, the commands and reprocessing on the small bridge.
use Prim.Native.Nat.{max}
use tokenbridge_monitor.Base.{
  ℕ, ◌≤◌, ◌<◌, ◌≡◌, refl, true, false, not, find_by, ◌&&◌, none, some, List, [], ◌∷◌, ◌++◌, map,
  filter_by, ◌==◌, string_eq, nat_eq, bytes_eq, arith,
}
use tokenbridge_monitor.Entity.{SignedMessage}
use tokenbridge_monitor.Config.{BridgeConfig}
use tokenbridge_monitor.Config.Init.{ready, init_config, init_bridges, init_bridge, init_side}
use tokenbridge_monitor.Config.Init.Ready.{IsReady, init_config-IsReady}
use tokenbridge_monitor.Repo.Store.{Store}
use tokenbridge_monitor.Exec.{ok, err, beyond_processed}
use tokenbridge_monitor.Exec.Retryable.{clean}
use tokenbridge_monitor.Monitor.Types.{BlocksRange, LogsBatch}
use tokenbridge_monitor.Monitor.Types.SplitRange.{Tiles}
use tokenbridge_monitor.Monitor.ContractMonitor.Batches.{process_logs_batch}
use tokenbridge_monitor.Monitor.ContractMonitor.Reprocess.{
  process_block_range, process_block_range-Tiles, process_logs_batch-Keeps,
}
use tokenbridge_monitor.Monitor.Alerts.Tables.{AlertJobParams, located, row_of}
use tokenbridge_monitor.Monitor.Alerts.Unknown.{
  find_unknown_confirmations, find_unknown_executions, counted_confirmation, unknown_confirmation,
}
use tokenbridge_monitor.Monitor.Alerts.Unknown.Recorded.{find_unknown_lem, confirms_recorded}
use tokenbridge_monitor.Monitor.Alerts.Manager.{new_alert_manager}
use tokenbridge_monitor.Monitor.Alerts.Manager.Jobs.{JobsFor, new_alert_manager-JobsFor}
use tokenbridge_monitor.Cmd.Bridges.{
  selected_bridges, monitored_bridges, Starts, is_usable, monitored_bridges_lem,
}
use tokenbridge_monitor.Cmd.Reprocess.{
  Arguments, BlockRange, accepted, check_arguments, check_arguments_lem,
}
use tokenbridge_monitor.Tests.Values.{some_side, some_contract, some_state, some_cursor}
use tokenbridge_monitor.Tests.Presenting.{some_bridge, some_config, pending_store}

-- A confirmation of a message that is not recorded, in a block that is processed.
abbrev alerting_store : Store
alerting_store = record pending_store {
  logs_cursors = record some_cursor { last_processed_block = 107 } ∷ [];
  messages = [];
}

abbrev some_params : AlertJobParams
some_params = record {
  bridge = "test-amb";
  home_chain_id = "100";
  foreign_chain_id = "1";
  home_start_block_number = 100;
  foreign_start_block_number = 100;
  home_bridge_address = 1 ∷ [];
  foreign_bridge_address = 1 ∷ [];
  home_whitelisted_senders = [];
}

find_unknown_lem_example :
    (find_unknown_confirmations some_params (clean alerting_store) ≡ (
      ok (
          map unknown_confirmation (
            filter_by
              (λ r.
                counted_confirmation some_params 1000 r
                && not (confirms_recorded alerting_store (row_of r)))
              (located
                (λ (sm : SignedMessage). sm.log_id)
                alerting_store
                alerting_store.signed_messages))),
      clean alerting_store,
    ))
    × (find_unknown_executions some_params (clean alerting_store) ≡ (ok [], clean alerting_store))
find_unknown_lem_example = find_unknown_lem some_params alerting_store 1000 refl

abbrev watched_bridge : BridgeConfig
watched_bridge = record some_bridge { alerts = ("last_validator_activity", none) ∷ [] }

abbrev completed_bridge : BridgeConfig
completed_bridge = record some_bridge {
  alerts =
      (
        "last_validator_activity",
        some (record { home_start_block = 100; foreign_start_block = 100 }),
      )
      ∷ [];
}

completed_test :
    init_config (record some_config { bridges = watched_bridge ∷ [] })
    ≡ ready (record some_config { bridges = completed_bridge ∷ [] })
unfolding init_config init_bridges init_bridge init_side
completed_test = refl

completed_bridge-IsReady : IsReady completed_bridge
completed_bridge-IsReady =
    (init_config-IsReady _ (record some_config { bridges = completed_bridge ∷ [] })
      completed_test).0

new_alert_manager-JobsFor_example :
    JobsFor completed_bridge completed_bridge.alerts (new_alert_manager completed_bridge)
new_alert_manager-JobsFor_example =
    new_alert_manager-JobsFor completed_bridge completed_bridge-IsReady

process_block_range-Tiles_example :
    (110 < 108 → process_block_range some_contract 100 108 some_state ≡ err beyond_processed)
    × (108 ≤ 110
        → (ranges : List BlocksRange) × (process_block_range some_contract 100 108 some_state
            ≡ ok (
                some (record some_state {
                  blocks_range_chan = none ∷ (map (λ r. some r) ranges ++ none ∷ []);
                })))
          × Tiles 50 100 108 ranges)
process_block_range-Tiles_example =
    process_block_range-Tiles some_contract 100 108 some_state (omega arith) (omega arith)

abbrev old_batch : LogsBatch
old_batch = record { block_number = 107; logs = [] }

process_logs_batch-Keeps_example :
    (process_logs_batch some_contract (λ n. ok 1000) 0 old_batch some_state).1.logs_cursor
    ≡ some_cursor
process_logs_batch-Keeps_example =
    process_logs_batch-Keeps some_contract (λ n. ok 1000) 0 old_batch some_state (omega arith)

abbrev some_arguments : Arguments
some_arguments = record {
  bridge_id = "test-amb";
  home = true;
  foreign = false;
  from_block = 90;
  to_block = 108;
}

abbrev some_range : BlockRange
some_range = record { bridge = some_bridge; side = some_side; from_block = 100; to_block = 108 }

arguments_test : check_arguments some_config some_arguments ≡ accepted some_range
unfolding check_arguments
arguments_test = refl

check_arguments_lem_example :
    (find_by (λ (b : BridgeConfig). b.id == "test-amb") (some_bridge ∷ []) ≡ some some_bridge)
    × ((some_bridge.id == "test-amb") ≡ true)
    × (some_side ≡ some_bridge.home)
    × (100 ≡ max 90 100)
    × (100 ≤ 108)
    × (◌≡◌ {A = ℕ} 108 108)
check_arguments_lem_example =
    check_arguments_lem some_config some_arguments some_range arguments_test

abbrev other_bridge : BridgeConfig
other_bridge = record some_bridge { id = "other-amb" }

disabled_test :
    monitored_bridges (selected_bridges ("other-amb" ∷ []) none (some_bridge ∷ other_bridge ∷ []))
    ≡ ok (some_bridge ∷ [])
unfolding monitored_bridges selected_bridges
disabled_test = refl

monitored_bridges_lem_example :
    (monitored_bridges (selected_bridges ("other-amb" ∷ []) none (some_bridge ∷ other_bridge ∷ []))
      ≡ ok (some_bridge ∷ []))
    × Starts (is_usable ("other-amb" ∷ []) (some_bridge ∷ other_bridge ∷ [])) [] ("test-amb" ∷ []) (
        monitored_bridges (
          selected_bridges
            ("other-amb" ∷ [])
            (some ("test-amb" ∷ []))
            (some_bridge ∷ other_bridge ∷ [])))
monitored_bridges_lem_example =
    monitored_bridges_lem ("other-amb" ∷ []) ("test-amb" ∷ []) (some_bridge ∷ other_bridge ∷ [])
