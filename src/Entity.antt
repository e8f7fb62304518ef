-- ===== src/Entity.antt =====
-- The rows that the monitor keeps (entity/*.go). An address is its 20 bytes and a hash its 32, so
-- Go's `a[:]` is `a`. `CreatedAt` and `UpdatedAt`, which the database fills in and no operation
-- modelled here reads, are left out, and so is the serial `ID` of a message or a request.
pub mod Logs
use tokenbridge_monitor.Base.{ℕ, String, Bool, Option, Bytes}
pub use Logs.{Log, LogsFilter, EthLog, new_log, topics}

abbrev pub Address : Type 0
Address = Bytes

abbrev pub Hash : Type 0
Hash = Bytes

pub data Direction : Type 0 where
  foreign_to_home home_to_foreign : Direction

pub record LogsCursor : Type 0 where
  pub chain_id : String
  pub address : Address
  pub last_fetched_block : ℕ
  pub last_processed_block : ℕ

pub record BlockTimestamp : Type 0 where
  pub chain_id : String
  pub block_number : ℕ
  pub timestamp : ℕ

pub record Message : Type 0 where
  pub bridge_id : String
  pub msg_hash : Hash
  pub message_id : Hash
  pub direction : Direction
  pub sender : Address
  pub executor : Address
  pub payload : Bytes
  pub data_type : ℕ
  pub gas_limit : ℕ
  pub raw_message : Bytes

-- `Value` is the decimal print of the amount; the amount itself is kept here.
pub record ErcToNativeMessage : Type 0 where
  pub bridge_id : String
  pub msg_hash : Hash
  pub direction : Direction
  pub sender : Address
  pub receiver : Address
  pub value : ℕ
  pub raw_message : Bytes

pub record SentMessage : Type 0 where
  pub log_id : ℕ
  pub bridge_id : String
  pub msg_hash : Hash

pub record SignedMessage : Type 0 where
  pub log_id : ℕ
  pub bridge_id : String
  pub msg_hash : Hash
  pub signer : Address

pub record CollectedMessage : Type 0 where
  pub log_id : ℕ
  pub bridge_id : String
  pub msg_hash : Hash
  pub responsible_signer : Address
  pub num_signatures : ℕ

pub record ExecutedMessage : Type 0 where
  pub log_id : ℕ
  pub bridge_id : String
  pub message_id : Hash
  pub status : Bool

pub record InformationRequest : Type 0 where
  pub bridge_id : String
  pub message_id : Hash
  pub direction : Direction
  pub request_selector : Hash
  pub sender : Address
  pub executor : Address
  pub payload : Bytes

pub record SentInformationRequest : Type 0 where
  pub log_id : ℕ
  pub bridge_id : String
  pub message_id : Hash

pub record SignedInformationRequest : Type 0 where
  pub log_id : ℕ
  pub bridge_id : String
  pub message_id : Hash
  pub signer : Address
  pub payload : Bytes

pub record ExecutedInformationRequest : Type 0 where
  pub log_id : ℕ
  pub bridge_id : String
  pub message_id : Hash
  pub status : Bool
  pub callback_status : Bool
  pub payload : Bytes

pub record BridgeValidator : Type 0 where
  pub log_id : ℕ
  pub bridge_id : String
  pub chain_id : String
  pub address : Address
  pub removed_log_id : Option ℕ
