-- ===== src/Monitor/Handlers.antt =====
-- monitor/handlers.go: one handler for each event of the contracts. A handler turns the decoded
-- arguments of a log into rows. The handlers of AMB bridges, of ERC-TO-NATIVE bridges and of the
-- validators stand in the modules below.
pub mod Amb
pub mod ErcToNative
pub mod Validators
pub mod Retries
use tokenbridge_monitor.Base.{
  ℕ, String, Bool, Option, none, some, List, [], ◌∷◌, Bytes, ◌==◌, string_eq, if◌then◌else◌,
}
use tokenbridge_monitor.Entity.{Address, Hash, Log}
use tokenbridge_monitor.Geth.{Geth}
use tokenbridge_monitor.Config.{BridgeSideConfig}
use tokenbridge_monitor.Exec.{Exec, Result, ok, err, wrong_argument_type, query}

-- What the handlers read of a transaction; `envelope` is what `TransactionSender` looks at.
pub record EthTx : Type 0 where
  pub value : ℕ
  pub payload : Bytes
  pub envelope : Bytes

-- The client of the home chain, answering from the chain itself.
pub record HomeClient : Type 0 where
  pub transaction : Hash → Result EthTx
  pub sender : EthTx → Result Address

pub record BridgeEventHandler : Type 0 where
  pub geth : Geth
  pub bridge_id : String
  pub home_client : HomeClient
  pub foreign : BridgeSideConfig
  -- the ids of two events in the ABI of an ERC-TO-NATIVE bridge
  pub transfer_signature : Hash
  pub user_request_for_affirmation_signature : Hash

-- The request to the node may fail; `TransactionSender` makes none.
unfoldable pub transaction_by_hash : BridgeEventHandler → Hash → Exec EthTx
transaction_by_hash p hash = query λ _. p.home_client.transaction hash

-- The values that the ABI decoder puts into `map[string]interface{}`.
pub data Value : Type 0 where
  address_value : Address → Value
  big_int : ℕ → Value
  bytes_value : Bytes → Value
  bytes32 : Bytes → Value
  bool_value : Bool → Value

abbrev pub EventData : Type 0
EventData = List (String × Value)

abbrev pub EventHandler : Type 0
EventHandler = Log → EventData → Exec Unit

abbrev pub argument : String → EventData → Option Value
argument name [] = none
argument name ((k, v) ∷ args) = if k == name then some v else argument name args

-- `v, ok := data[name].(T)`, with the error that each handler returns where it is not ok.
abbrev pub as_address : Option Value → Result Address
as_address (some (address_value a)) = ok a
as_address _ = err wrong_argument_type

abbrev pub as_big_int : Option Value → Result ℕ
as_big_int (some (big_int n)) = ok n
as_big_int _ = err wrong_argument_type

abbrev pub as_bytes : Option Value → Result Bytes
as_bytes (some (bytes_value b)) = ok b
as_bytes _ = err wrong_argument_type

abbrev pub as_bytes32 : Option Value → Result Bytes
as_bytes32 (some (bytes32 b)) = ok b
as_bytes32 _ = err wrong_argument_type

abbrev pub as_bool : Option Value → Result Bool
as_bool (some (bool_value b)) = ok b
as_bool _ = err wrong_argument_type
