-- ===== src/Tests/Values.antt =====
-- A small bridge: what the tests start from.
use tokenbridge_monitor.Base.{ℕ, refl, Bool, true, false, none, some, List, [], ◌∷◌, Bytes, take}
use tokenbridge_monitor.Entity.{Log, LogsCursor, BridgeValidator}
use tokenbridge_monitor.Geth.{Geth, ConvertsExactly}
use tokenbridge_monitor.Config.{BridgeSideConfig, arbitrary_message}
use tokenbridge_monitor.Contract.Abi.{Abi}
use tokenbridge_monitor.Contract.Events.{
  signed_for_user_request, validator_added, validator_removed,
}
use tokenbridge_monitor.Exec.{ok, Session, not_found, err}
use tokenbridge_monitor.Repo.Store.{Store}
use tokenbridge_monitor.Monitor.Handlers.{BridgeEventHandler, address_value, bytes32}
use tokenbridge_monitor.Monitor.ContractMonitor.{Contract, State}
use tokenbridge_monitor.Monitor.Registration.{Monitor}

abbrev pub some_geth : Geth
some_geth = record {
  keccak256_hash = λ b. take 32 b;
  bytes_to_hash = λ b. b;
  bytes_to_address = λ b. b;
  big_to_hash = λ n. n ∷ [];
  address_to_hash = λ a. a;
}

pub some_geth-ConvertsExactly : ConvertsExactly some_geth
some_geth-ConvertsExactly = record {
  bytes_to_hash_id = λ b h. refl;
  bytes_to_address_id = λ b h. refl;
}

-- `n` bytes of the value `b`.
abbrev pub bytes_of : ℕ → ℕ → Bytes
bytes_of Prim.Native.Nat.zero b = []
bytes_of (Prim.Native.Nat.suc n) b = b ∷ bytes_of n b

abbrev pub some_side : BridgeSideConfig
some_side = record {
  chain_name = "home";
  chain = record { chain_id = "100"; explorer_tx_link_format = ""; safe_logs_request = false };
  address = 1 ∷ [];
  validator_contract_address = 2 ∷ [];
  start_block = 100;
  block_confirmations = 10;
  max_block_range_size = 50;
  whitelisted_senders = [];
  erc_to_native_tokens = [];
}

-- Every log has a signer, a message hash and a validator.
abbrev pub some_abi : Abi
some_abi = record {
  events =
      record { print = signed_for_user_request; id = 7 ∷ []; inputs = [] }
      ∷ record { print = validator_added; id = 8 ∷ []; inputs = [] }
      ∷ record { print = validator_removed; id = 9 ∷ []; inputs = [] }
      ∷ [];
  unpack_into_map = λ args b. ok [];
  parse_topics_into_map = λ args ts. ok (
      ("signer", address_value (5 ∷ []))
      ∷ ("messageHash", bytes32 (6 ∷ []))
      ∷ ("validator", address_value (5 ∷ []))
      ∷ []);
}

abbrev pub some_contract : Contract
some_contract = record {
  geth = some_geth;
  bridge_mode = arbitrary_message;
  cfg = some_side;
  abi = some_abi;
  event_handlers = [];
}

abbrev pub some_monitor : Monitor
some_monitor = record { home_monitor = some_contract; foreign_monitor = some_contract }

abbrev pub some_handler : BridgeEventHandler
some_handler = record {
  geth = some_geth;
  bridge_id = "test-amb";
  home_client = record { transaction = λ h. err not_found; sender = λ t. err not_found };
  foreign = some_side;
  transfer_signature = 30 ∷ [];
  user_request_for_affirmation_signature = 31 ∷ [];
}

-- A log of the event with the given id.
abbrev pub log_at : ℕ → ℕ → ℕ → Log
log_at id block_number topic = record {
  id = id;
  chain_id = "100";
  address = 1 ∷ [];
  topic0 = some (topic ∷ []);
  topic1 = none;
  topic2 = none;
  topic3 = none;
  payload = [];
  block_number = block_number;
  log_index = 0;
  transaction_hash = 4 ∷ [];
}

abbrev pub some_validator : BridgeValidator
some_validator = record {
  log_id = 1;
  bridge_id = "test-amb";
  chain_id = "100";
  address = 5 ∷ [];
  removed_log_id = none;
}

abbrev pub some_store : Store
some_store = record {
  logs_cursors = [];
  logs = log_at 1 101 8 ∷ log_at 2 105 9 ∷ log_at 3 107 7 ∷ [];
  block_timestamps = [];
  messages = [];
  erc_to_native_messages = [];
  sent_messages = [];
  signed_messages = [];
  collected_messages = [];
  executed_messages = [];
  information_requests = [];
  sent_information_requests = [];
  signed_information_requests = [];
  executed_information_requests = [];
  bridge_validators = some_validator ∷ [];
}

abbrev pub session_with : List Bool → Session
session_with faults = record { store = some_store; faults = faults; cancelled = false }

abbrev pub some_cursor : LogsCursor
some_cursor = record {
  chain_id = "100";
  address = 1 ∷ [];
  last_fetched_block = 120;
  last_processed_block = 110;
}

abbrev pub some_state : State
some_state = record {
  logs_cursor = some_cursor;
  head_block = 119;
  is_synced = true;
  blocks_range_chan = [];
  logs_chan = [];
  session = session_with [];
}
