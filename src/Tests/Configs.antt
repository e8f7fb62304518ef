-- ===== src/Tests/Configs.antt =====
-- A configuration completed and checked.
use tokenbridge_monitor.Base.{◌≡◌, refl, true, none, some, [], ◌∷◌, All}
use tokenbridge_monitor.Config.{BridgeSideConfig, TokenConfig, erc_to_native}
use tokenbridge_monitor.Config.Init.{
  Config, ready, refused, invalid_config, init_config, init_bridges, init_bridge, init_side,
}
use tokenbridge_monitor.Config.Init.Ready.{IsReady, init_config-IsReady}
use tokenbridge_monitor.Tests.Values.{some_side}

abbrev some_token : TokenConfig
some_token = record { address = 3 ∷ []; start_block = 0; end_block = 0; blacklisted_senders = [] }

-- A bridge with a token on its foreign side, sizes of ranges left out, and an alert left empty.
abbrev written : Config
written = record {
  chains =
      ("home", record { chain_id = "100"; explorer_tx_link_format = ""; safe_logs_request = true })
      ∷ [];
  bridges =
      record {
        id = "test";
        bridge_mode = erc_to_native;
        home = record some_side { max_block_range_size = 0 };
        foreign = record some_side {
          max_block_range_size = 0;
          erc_to_native_tokens = some_token ∷ [];
        };
        alerts = ("stuck_message_confirmations", none) ∷ [];
      }
      ∷ [];
}

abbrev completed_side : BridgeSideConfig
completed_side = record some_side {
  max_block_range_size = 1000;
  chain = record { chain_id = "100"; explorer_tx_link_format = ""; safe_logs_request = true };
}

abbrev completed : Config
completed = record written {
  bridges =
      record {
        id = "test";
        bridge_mode = erc_to_native;
        home = completed_side;
        foreign = record completed_side {
          erc_to_native_tokens =
              record some_token { start_block = 100; end_block = 4294967295 } ∷ [];
        };
        alerts =
            (
              "stuck_message_confirmations",
              some (record { home_start_block = 100; foreign_start_block = 100 }),
            )
            ∷ [];
      }
      ∷ [];
}

completed_test : init_config written ≡ ready completed
unfolding init_config init_bridges init_bridge init_side
completed_test = refl

init_config-IsReady_example : All IsReady completed.bridges
init_config-IsReady_example = init_config-IsReady written completed completed_test

unknown_chain_test : init_config (record written { chains = [] }) ≡ refused invalid_config
unfolding init_config init_bridges init_bridge init_side
unknown_chain_test = refl
