-- ===== src/Monitor/Registration.antt =====
-- monitor/monitor.go: which handler is registered for which event of which contract. The calls of
-- RegisterEventHandler come in the order of the list.
pub mod Retries
use tokenbridge_monitor.Base.{String, Bool, List, [], ◌∷◌, ◌&&◌}
use tokenbridge_monitor.Contract.Events.{
  user_request_for_signature, legacy_user_request_for_signature, user_request_for_affirmation,
  legacy_user_request_for_affirmation, user_request_for_information, signed_for_user_request,
  signed_for_affirmation, signed_for_information, collected_signatures, affirmation_completed,
  legacy_affirmation_completed, relayed_message, legacy_relayed_message, information_retrieved,
  erc_to_native_user_request_for_signature, erc_to_native_transfer, erc_to_native_relayed_message,
  erc_to_native_user_request_for_affirmation, erc_to_native_affirmation_completed,
  erc_to_native_signed_for_affirmation, validator_added, validator_removed,
}
use tokenbridge_monitor.Config.{BridgeMode, arbitrary_message, erc_to_native, other}
use tokenbridge_monitor.Monitor.Handlers.{BridgeEventHandler, EventHandler}
use tokenbridge_monitor.Monitor.Handlers.Amb.{
  handle_affirmation_completed, handle_collected_signatures, handle_information_retrieved,
  handle_legacy_user_request_for_affirmation, handle_legacy_user_request_for_signature,
  handle_relayed_message, handle_signed_for_information, handle_signed_for_user_request,
  handle_user_request_for_affirmation, handle_user_request_for_information,
  handle_user_request_for_signature,
}
use tokenbridge_monitor.Monitor.Handlers.ErcToNative.{
  handle_erc_to_native_affirmation_completed, handle_erc_to_native_relayed_message,
  handle_erc_to_native_signed_for_affirmation, handle_erc_to_native_transfer,
  handle_erc_to_native_user_request_for_affirmation,
  handle_erc_to_native_user_request_for_signature,
}
use tokenbridge_monitor.Monitor.Handlers.Validators.{
  handle_validator_added, handle_validator_removed,
}
use tokenbridge_monitor.Monitor.ContractMonitor.{
  Contract, State, register_event_handler, verify_event_handlers_abi,
}

-- The two contract monitors of a bridge.
pub record Monitor : Type 0 where
  pub home_monitor : Contract
  pub foreign_monitor : Contract

unfoldable pub register_all : List (String × EventHandler) → Contract → Contract
unfolding register_event_handler
register_all [] c = c
register_all ((event, handler) ∷ handlers) c =
    register_all handlers (register_event_handler event handler c)

module _ (p : BridgeEventHandler) where
  abbrev pub amb_home_handlers : List (String × EventHandler)
  amb_home_handlers =
      (user_request_for_signature, handle_user_request_for_signature p)
      ∷ (legacy_user_request_for_signature, handle_legacy_user_request_for_signature p)
      ∷ (signed_for_user_request, handle_signed_for_user_request p)
      ∷ (collected_signatures, handle_collected_signatures p)
      ∷ (signed_for_affirmation, handle_signed_for_user_request p)
      ∷ (affirmation_completed, handle_affirmation_completed p)
      ∷ (legacy_affirmation_completed, handle_affirmation_completed p)
      ∷ (user_request_for_information, handle_user_request_for_information p)
      ∷ (signed_for_information, handle_signed_for_information p)
      ∷ (information_retrieved, handle_information_retrieved p)
      ∷ (validator_added, handle_validator_added p)
      ∷ (validator_removed, handle_validator_removed p)
      ∷ []

  abbrev pub amb_foreign_handlers : List (String × EventHandler)
  amb_foreign_handlers =
      (user_request_for_affirmation, handle_user_request_for_affirmation p)
      ∷ (legacy_user_request_for_affirmation, handle_legacy_user_request_for_affirmation p)
      ∷ (relayed_message, handle_relayed_message p)
      ∷ (legacy_relayed_message, handle_relayed_message p)
      ∷ (validator_added, handle_validator_added p)
      ∷ (validator_removed, handle_validator_removed p)
      ∷ []

  abbrev pub erc_to_native_home_handlers : List (String × EventHandler)
  erc_to_native_home_handlers =
      (erc_to_native_user_request_for_signature, handle_erc_to_native_user_request_for_signature p)
      ∷ (signed_for_user_request, handle_signed_for_user_request p)
      ∷ (collected_signatures, handle_collected_signatures p)
      ∷ (erc_to_native_signed_for_affirmation, handle_erc_to_native_signed_for_affirmation p)
      ∷ (erc_to_native_affirmation_completed, handle_erc_to_native_affirmation_completed p)
      ∷ (validator_added, handle_validator_added p)
      ∷ (validator_removed, handle_validator_removed p)
      ∷ []

  abbrev pub erc_to_native_foreign_handlers : List (String × EventHandler)
  erc_to_native_foreign_handlers =
      (
        erc_to_native_user_request_for_affirmation,
        handle_erc_to_native_user_request_for_affirmation p,
      )
      ∷ (erc_to_native_transfer, handle_erc_to_native_transfer p)
      ∷ (erc_to_native_relayed_message, handle_erc_to_native_relayed_message p)
      ∷ (validator_added, handle_validator_added p)
      ∷ (validator_removed, handle_validator_removed p)
      ∷ []

  unfoldable pub register_amb_event_handlers : Monitor → Monitor
  unfolding register_all
  register_amb_event_handlers m = record m {
    home_monitor = register_all amb_home_handlers m.home_monitor;
    foreign_monitor = register_all amb_foreign_handlers m.foreign_monitor;
  }

  unfoldable pub register_erc_to_native_event_handlers : Monitor → Monitor
  unfolding register_all
  register_erc_to_native_event_handlers m = record m {
    home_monitor = register_all erc_to_native_home_handlers m.home_monitor;
    foreign_monitor = register_all erc_to_native_foreign_handlers m.foreign_monitor;
  }

  -- NewMonitor; of another mode than the two, nothing is registered.
  unfoldable pub register_handlers : BridgeMode → Monitor → Monitor
  unfolding register_amb_event_handlers register_erc_to_native_event_handlers
  register_handlers erc_to_native m = register_erc_to_native_event_handlers m
  register_handlers arbitrary_message m = register_amb_event_handlers m
  register_handlers (other _) m = m

-- What NewMonitor asks of the registered handlers.
unfoldable pub verifies : Monitor → Bool
unfolding verify_event_handlers_abi
verifies m =
    verify_event_handlers_abi m.home_monitor.abi m.home_monitor.event_handlers
    && verify_event_handlers_abi m.foreign_monitor.abi m.foreign_monitor.event_handlers

-- `IsSynced`
abbrev pub bridge_is_synced : State → State → Bool
bridge_is_synced home foreign = home.is_synced && foreign.is_synced
