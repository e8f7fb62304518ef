-- ===== src/Presenter/Types.antt =====
-- presenter/types.go: the values that the handlers render.
pub mod Selectors
use tokenbridge_monitor.Base.{
  ℕ, String, Bool, true, false, Option, none, some, List, [], ◌∷◌, Bytes, ◌==◌, bytes_eq, find_by,
}
use tokenbridge_monitor.Entity.{
  Address, Hash, Direction, Log, Message, ErcToNativeMessage, InformationRequest,
}
use tokenbridge_monitor.Config.{BridgeMode}
use tokenbridge_monitor.Repo.Reads.{BridgeMessage, amb, erc}

pub record MessageInfo : Type 0 where
  pub bridge_id : String
  pub msg_hash : Hash
  pub message_id : Hash
  pub direction : Direction
  pub sender : Address
  pub executor : Address
  pub data_type : ℕ
  pub payload : Bytes

-- The name of a method, or the print of a selector that has none.
pub data Method : Type 0 where
  decoded : String → Method
  selector : Hash → Method

pub record InformationRequestInfo : Type 0 where
  pub bridge_id : String
  pub message_id : Hash
  pub direction : Direction
  pub sender : Address
  pub executor : Address
  pub method : Method
  pub payload : Bytes

-- The value is the number that the decimal text prints.
pub record ErcToNativeMessageInfo : Type 0 where
  pub bridge_id : String
  pub msg_hash : Hash
  pub direction : Direction
  pub sender : Address
  pub receiver : Address
  pub value : ℕ

-- The `interface{}` of a result.
pub data MessageView : Type 0 where
  message : MessageInfo → MessageView
  erc_to_native_message : ErcToNativeMessageInfo → MessageView
  information_request : InformationRequestInfo → MessageView

-- The print of a hash, or the text of `fmt.Sprintf` for a format and the hash.
pub data TxLink : Type 0 where
  hash_text : Hash → TxLink
  formatted : String → Hash → TxLink

pub record TxInfo : Type 0 where
  pub block_number : ℕ
  pub timestamp : ℕ
  pub link : TxLink

pub record EventInfo : Type 0 where
  pub action : String
  pub log_id : ℕ
  pub signer : Option Address
  pub payload : Bytes
  pub count : ℕ
  pub status : Bool
  pub callback_status : Bool
  pub tx_info : Option TxInfo

pub record SearchResult : Type 0 where
  pub event : Option EventInfo
  pub view : MessageView
  pub related_events : List EventInfo

pub record LogInfo : Type 0 where
  pub log_id : ℕ
  pub chain_id : String
  pub address : Address
  pub topic0 : Option Hash
  pub topic1 : Option Hash
  pub topic2 : Option Hash
  pub topic3 : Option Hash
  pub payload : Bytes
  pub tx_hash : Hash
  pub block_number : ℕ

-- A time is `none` where the source has the zero time.
pub record BridgeSideInfo : Type 0 where
  pub chain : String
  pub chain_id : String
  pub bridge_address : Address
  pub last_fetched_block : ℕ
  pub last_fetch_block_time : Option ℕ
  pub last_processed_block : ℕ
  pub last_processed_block_time : Option ℕ
  pub validators : List Address

pub record BridgeInfo : Type 0 where
  pub bridge_id : String
  pub mode : BridgeMode
  pub home : BridgeSideInfo
  pub foreign : BridgeSideInfo

pub record ValidatorInfo : Type 0 where
  pub address : Address
  pub last_confirmation : Option TxInfo

pub record ValidatorsInfo : Type 0 where
  pub bridge_id : String
  pub mode : BridgeMode
  pub validators : List ValidatorInfo

pub record UnsignedMessageInfo : Type 0 where
  pub view : MessageView
  pub link : Option TxLink
  pub signers : List Address
  pub missing_signers : List Address

pub record UnsignedMessagesInfo : Type 0 where
  pub required_signatures : ℕ
  pub active_validators : List Address
  pub total_pending_messages : ℕ
  pub total_unsigned_messages : ℕ
  pub unsigned_messages : List UnsignedMessageInfo

abbrev pub new_log_info : Log → LogInfo
new_log_info log = record {
  log_id = log.id;
  chain_id = log.chain_id;
  address = log.address;
  topic0 = log.topic0;
  topic1 = log.topic1;
  topic2 = log.topic2;
  topic3 = log.topic3;
  payload = log.payload;
  tx_hash = log.transaction_hash;
  block_number = log.block_number;
}

abbrev pub new_message_info : Message → MessageInfo
new_message_info msg = record {
  bridge_id = msg.bridge_id;
  msg_hash = msg.msg_hash;
  message_id = msg.message_id;
  direction = msg.direction;
  sender = msg.sender;
  executor = msg.executor;
  data_type = msg.data_type;
  payload = msg.payload;
}

abbrev pub new_erc_to_native_message_info : ErcToNativeMessage → ErcToNativeMessageInfo
new_erc_to_native_message_info req = record {
  bridge_id = req.bridge_id;
  msg_hash = req.msg_hash;
  direction = req.direction;
  sender = req.sender;
  receiver = req.receiver;
  value = req.value;
}

abbrev pub new_bridge_message_info : BridgeMessage → MessageView
new_bridge_message_info (amb msg) = message (new_message_info msg)
new_bridge_message_info (erc msg) = erc_to_native_message (new_erc_to_native_message_info msg)

-- contract/bridgeabi/bridge_abi.go: the names of the methods by the hash of their text, which is a
-- parameter. What is written later is found first.
abbrev pub arbitrary_message_methods : List String
arbitrary_message_methods =
    "eth_call(address,bytes)" ∷ "eth_call(address,bytes,uint256)"
    ∷ "eth_call(address,address,uint256,bytes)" ∷ "eth_blockNumber()" ∷ "eth_getBlockByNumber()"
    ∷ "eth_getBlockByNumber(uint256)" ∷ "eth_getBlockByHash(bytes32)" ∷ "eth_getBalance(address)"
    ∷ "eth_getBalance(address,uint256)" ∷ "eth_getTransactionCount(address)"
    ∷ "eth_getTransactionCount(address,uint256)" ∷ "eth_getTransactionByHash(bytes32)"
    ∷ "eth_getTransactionReceipt(bytes32)" ∷ "eth_getStorageAt(address,bytes32)"
    ∷ "eth_getStorageAt(address,bytes32,uint256)" ∷ []

module _ (keccak256_text : String → Hash) where
  abbrev pub new_keccak_mapping : List String → List (Hash × String) → List (Hash × String)
  new_keccak_mapping [] mapping = mapping
  new_keccak_mapping (s ∷ ss) mapping = new_keccak_mapping ss ((keccak256_text s, s) ∷ mapping)

  abbrev pub method_or_selector : Hash → Option (Hash × String) → Method
  method_or_selector h none = selector h
  method_or_selector h (some (_, name)) = decoded name

  unfoldable pub decode_request_selector : Hash → Method
  decode_request_selector h =
      method_or_selector h (
        find_by (λ (e : Hash × String). e.0 == h) (new_keccak_mapping arbitrary_message_methods []))

  abbrev pub new_information_request_info : InformationRequest → InformationRequestInfo
  unfolding decode_request_selector
  new_information_request_info req = record {
    bridge_id = req.bridge_id;
    message_id = req.message_id;
    direction = req.direction;
    sender = req.sender;
    executor = req.executor;
    method = decode_request_selector req.request_selector;
    payload = req.payload;
  }
