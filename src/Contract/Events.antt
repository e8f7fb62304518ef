-- ===== src/Contract/Events.antt =====
-- The texts of the events that the monitor handles (contract/bridgeabi/bridge_abi.go).
use tokenbridge_monitor.Base.{String}

abbrev pub user_request_for_signature : String
user_request_for_signature =
    "event UserRequestForSignature(bytes32 indexed messageId, bytes encodedData)"

abbrev pub legacy_user_request_for_signature : String
legacy_user_request_for_signature = "event UserRequestForSignature(bytes encodedData)"

abbrev pub user_request_for_affirmation : String
user_request_for_affirmation =
    "event UserRequestForAffirmation(bytes32 indexed messageId, bytes encodedData)"

abbrev pub legacy_user_request_for_affirmation : String
legacy_user_request_for_affirmation = "event UserRequestForAffirmation(bytes encodedData)"

abbrev pub user_request_for_information : String
user_request_for_information =
    "event UserRequestForInformation(bytes32 indexed messageId, bytes32 indexed requestSelector, address indexed sender, bytes data)"

abbrev pub signed_for_user_request : String
signed_for_user_request = "event SignedForUserRequest(address indexed signer, bytes32 messageHash)"

abbrev pub signed_for_affirmation : String
signed_for_affirmation = "event SignedForAffirmation(address indexed signer, bytes32 messageHash)"

abbrev pub signed_for_information : String
signed_for_information =
    "event SignedForInformation(address indexed signer, bytes32 indexed messageId)"

abbrev pub collected_signatures : String
collected_signatures =
    "event CollectedSignatures(address authorityResponsibleForRelay, bytes32 messageHash, uint256 NumberOfCollectedSignatures)"

abbrev pub affirmation_completed : String
affirmation_completed =
    "event AffirmationCompleted(address indexed sender, address indexed executor, bytes32 indexed messageId, bool status)"

abbrev pub legacy_affirmation_completed : String
legacy_affirmation_completed =
    "event AffirmationCompleted(address sender, address executor, bytes32 messageId, bool status)"

abbrev pub relayed_message : String
relayed_message =
    "event RelayedMessage(address indexed sender, address indexed executor, bytes32 indexed messageId, bool status)"

abbrev pub legacy_relayed_message : String
legacy_relayed_message =
    "event RelayedMessage(address sender, address executor, bytes32 messageId, bool status)"

abbrev pub information_retrieved : String
information_retrieved =
    "event InformationRetrieved(bytes32 indexed messageId, bool status, bool callbackStatus)"

abbrev pub erc_to_native_user_request_for_signature : String
erc_to_native_user_request_for_signature =
    "event UserRequestForSignature(address recipient, uint256 value)"

abbrev pub erc_to_native_transfer : String
erc_to_native_transfer = "event Transfer(address indexed from, address indexed to, uint256 value)"

abbrev pub erc_to_native_relayed_message : String
erc_to_native_relayed_message =
    "event RelayedMessage(address recipient, uint256 value, bytes32 transactionHash)"

abbrev pub erc_to_native_user_request_for_affirmation : String
erc_to_native_user_request_for_affirmation =
    "event UserRequestForAffirmation(address recipient, uint256 value)"

abbrev pub erc_to_native_affirmation_completed : String
erc_to_native_affirmation_completed =
    "event AffirmationCompleted(address recipient, uint256 value, bytes32 transactionHash)"

abbrev pub erc_to_native_signed_for_affirmation : String
erc_to_native_signed_for_affirmation =
    "event SignedForAffirmation(address indexed signer, bytes32 transactionHash)"

abbrev pub validator_added : String
validator_added = "event ValidatorAdded(address indexed validator)"

abbrev pub validator_removed : String
validator_removed = "event ValidatorRemoved(address indexed validator)"
