-- ===== src/Tests/Presenting.antt =====
-- The presenter on the small bridge: requests, signatures, validators and pending messages.
use tokenbridge_monitor.Base.{
  ◌≡◌, refl, ◌||◌, ◌&&◌, none, some, List, [], ◌∷◌, map, any, Bytes, ◌==◌, nat_eq, string_eq,
  bytes_eq,
}
use tokenbridge_monitor.Entity.{
  Hash, Address, Message, SignedMessage, home_to_foreign, foreign_to_home,
}
use tokenbridge_monitor.Config.{BridgeConfig, arbitrary_message}
use tokenbridge_monitor.Config.Init.{Config, get_chain_config}
use tokenbridge_monitor.Repo.Store.{Store}
use tokenbridge_monitor.Repo.Find.{find_active_validators}
use tokenbridge_monitor.Repo.Reads.{
  BridgeMessage, amb, get_latest_signed_message, find_pending_messages,
}
use tokenbridge_monitor.Repo.Reads.Pending.{find_pending_messages_lem}
use tokenbridge_monitor.Exec.{ok, Result, query, continue, lift, ◌>>=◌}
use tokenbridge_monitor.Exec.Retryable.{clean}
use tokenbridge_monitor.Presenter.Types.{ValidatorsInfo, ValidatorInfo, UnsignedMessagesInfo}
use tokenbridge_monitor.Presenter.Events.{optional}
use tokenbridge_monitor.Presenter.Search.{FilterContext, get_logs, get_messages}
use tokenbridge_monitor.Presenter.Bridges.{
  find_active_validator_addresses, get_validator_infos, get_validator_info, last_confirmation,
  get_bridge_info, get_bridge_validators, get_pending_messages,
}
use tokenbridge_monitor.Presenter.Bridges.Validators.{distinct, get_bridge_validators_lem}
use tokenbridge_monitor.Presenter.Signers.{SignersMap, make_signers_map, has_signed, parse_files}
use tokenbridge_monitor.Presenter.Signers.Maps.{listed}
use tokenbridge_monitor.Presenter.Signers.Marks.{brought, make_signers_map_lem}
use tokenbridge_monitor.Presenter.Unsigned.{get_messages_with_missing_signatures}
use tokenbridge_monitor.Presenter.Unsigned.Outgoing.{LastOfEach}
use tokenbridge_monitor.Presenter.Unsigned.Shown.{unsigned_spec, signed_by, view_of}
use tokenbridge_monitor.Presenter.Unsigned.Missing.{missing_signatures_lem}
use tokenbridge_monitor.Presenter.Filters.{
  Request, filter_of_request, next, get_chain_config_middleware, get_block_number_middleware,
  get_tx_hash_middleware, get_filter_middleware,
}
use tokenbridge_monitor.Presenter.Filters.Bounds.{InBounds, filter_of_request-InBounds}
use tokenbridge_monitor.Presenter.ReadOnly.Handlers.{presenter-ReadOnly}
use tokenbridge_monitor.Tests.Values.{some_side, some_store, session_with}

abbrev pub some_bridge : BridgeConfig
some_bridge = record {
  id = "test-amb";
  bridge_mode = arbitrary_message;
  home = some_side;
  foreign = some_side;
  alerts = [];
}

abbrev pub some_config : Config
some_config = record { chains = ("home", some_side.chain) ∷ []; bridges = some_bridge ∷ [] }

pub some-injective : {A : Type 0} {a b : A} → some a ≡ some b → a ≡ b
some-injective h = cc h

-- A message that one of two required validators has signed.
abbrev pub some_message : Message
some_message = record {
  bridge_id = "test-amb";
  msg_hash = 6 ∷ [];
  message_id = 16 ∷ [];
  direction = home_to_foreign;
  sender = [];
  executor = [];
  payload = [];
  data_type = 0;
  gas_limit = 0;
  raw_message = [];
}

abbrev some_signature : SignedMessage
some_signature = record { log_id = 3; bridge_id = "test-amb"; msg_hash = 6 ∷ []; signer = 5 ∷ [] }

abbrev pub pending_store : Store
pending_store = record some_store {
  messages = some_message ∷ [];
  signed_messages = some_signature ∷ [];
  block_timestamps = record { chain_id = "100"; block_number = 107; timestamp = 1000 } ∷ [];
}

find_pending_messages_lem_example :
    find_pending_messages "test-amb" arbitrary_message (clean pending_store)
    ≡ (ok (amb some_message ∷ []), clean pending_store)
find_pending_messages_lem_example =
    find_pending_messages_lem "test-amb" arbitrary_message pending_store

-- A message of the other direction is pending, too.
abbrev incoming : Message
incoming = record some_message { msg_hash = 17 ∷ []; direction = foreign_to_home }

abbrev two_ways : Store
two_ways = record pending_store { messages = some_message ∷ incoming ∷ [] }

abbrev no_recover : Hash → Bytes → Result Address
no_recover h sig = ok (9 ∷ [])

missing_signatures_lem_example :
    (info : UnsignedMessagesInfo) × (entries : List (Hash × BridgeMessage))
    × (get_messages_with_missing_signatures some_config
          (λ b. b)
          no_recover
          (ok 2)
          (ok [])
          some_bridge
          (clean two_ways)
        ≡ (ok info, clean two_ways))
    × (info.active_validators ≡ (5 ∷ []) ∷ [])
    × LastOfEach (amb some_message ∷ amb incoming ∷ []) entries
    × (map view_of info.unsigned_messages
        ≡ unsigned_spec (signed_by "test-amb" two_ways []) ((5 ∷ []) ∷ []) 2 entries)
unfolding parse_files
missing_signatures_lem_example =
    missing_signatures_lem some_config (λ b. b) no_recover 2 [] [] some_bridge two_ways refl

make_signers_map_lem_example :
    (m : SignersMap) × (make_signers_map
        ((6 ∷ []) ∷ [])
        (some_signature ∷ [])
        ((6 ∷ [], (8 ∷ []) ∷ []) ∷ [])
      ≡ ok m)
    × ((h : Hash) (a : Address)
        → has_signed m h a ≡ (
            any
              (λ (sig : SignedMessage). sig.msg_hash == h && sig.signer == a)
              (some_signature ∷ [])
            || brought (listed ((6 ∷ []) ∷ [])) ((6 ∷ [], (8 ∷ []) ∷ []) ∷ []) h a))
make_signers_map_lem_example =
    make_signers_map_lem ((6 ∷ []) ∷ []) (some_signature ∷ []) ((6 ∷ [], (8 ∷ []) ∷ []) ∷ [])
      (refl, tt)

abbrev some_filter : FilterContext
some_filter = record {
  chain_id = some "100";
  from_block = some 100;
  to_block = some 110;
  tx_hash = none;
}

presenter-ReadOnly_example :
    ((get_logs some_filter (session_with [])).1.store ≡ some_store)
    × ((get_messages (λ s. []) some_config some_filter (session_with [])).1.store ≡ some_store)
    × ((get_bridge_info some_bridge (session_with [])).1.store ≡ some_store)
    × ((get_bridge_validators some_config some_bridge (session_with [])).1.store ≡ some_store)
    × ((get_pending_messages some_bridge (session_with [])).1.store ≡ some_store)
    × ((get_messages_with_missing_signatures some_config
          (λ b. b)
          no_recover
          (ok 2)
          (ok [])
          some_bridge
          (session_with [])).1.store
        ≡ some_store)
presenter-ReadOnly_example =
    presenter-ReadOnly (λ s. []) (λ b. b) no_recover (ok 2) (ok []) some_config some_bridge
      some_filter (session_with [])

-- /logs?chainId=100&fromBlock=100&toBlock=110
abbrev some_request : Request
some_request = record {
  bridge_id_param = "";
  chain_id_param = "";
  block_number_param = [];
  tx_hash_param = "";
  chain_id_query = "100";
  block_number_query = [];
  from_block_query = 49 ∷ 48 ∷ 48 ∷ [];
  to_block_query = 49 ∷ 49 ∷ 48 ∷ [];
  tx_hash_query = "";
}

request_test : filter_of_request some_config (λ s. []) some_request ≡ next some_filter
unfolding filter_of_request get_chain_config_middleware get_block_number_middleware
    get_tx_hash_middleware get_filter_middleware get_chain_config
request_test = refl

filter_of_request-InBounds_example : InBounds (some 100) (some 110)
filter_of_request-InBounds_example =
    filter_of_request-InBounds some_config (λ s. []) some_request some_filter request_test

abbrev shown_validators : ValidatorsInfo
shown_validators = record {
  bridge_id = "test-amb";
  mode = arbitrary_message;
  validators = record { address = 5 ∷ []; last_confirmation = none } ∷ [];
}

validators_test :
    get_bridge_validators some_config some_bridge (clean some_store)
    ≡ (ok shown_validators, clean some_store)
unfolding get_bridge_validators find_active_validator_addresses find_active_validators
    get_validator_infos get_validator_info get_latest_signed_message optional last_confirmation
    query continue lift ◌>>=◌
validators_test = refl

get_bridge_validators_lem_example :
    map (λ (v : ValidatorInfo). v.address) shown_validators.validators ≡ distinct [] ((5 ∷ []) ∷ [])
get_bridge_validators_lem_example =
    get_bridge_validators_lem some_config some_bridge some_store shown_validators (clean some_store)
      validators_test
