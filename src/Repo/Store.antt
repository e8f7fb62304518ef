-- ===== src/Repo/Store.antt =====
-- The database as its tables (db/migrations/*.sql), a list of rows for each.
use tokenbridge_monitor.Base.{List}
use tokenbridge_monitor.Entity.{
  Log, LogsCursor, BlockTimestamp, Message, ErcToNativeMessage, SentMessage, SignedMessage,
  CollectedMessage, ExecutedMessage, InformationRequest, SentInformationRequest,
  SignedInformationRequest, ExecutedInformationRequest, BridgeValidator,
}

pub record Store : Type 0 where
  pub logs_cursors : List LogsCursor
  pub logs : List Log
  pub block_timestamps : List BlockTimestamp
  pub messages : List Message
  pub erc_to_native_messages : List ErcToNativeMessage
  pub sent_messages : List SentMessage
  pub signed_messages : List SignedMessage
  pub collected_messages : List CollectedMessage
  pub executed_messages : List ExecutedMessage
  pub information_requests : List InformationRequest
  pub sent_information_requests : List SentInformationRequest
  pub signed_information_requests : List SignedInformationRequest
  pub executed_information_requests : List ExecutedInformationRequest
  pub bridge_validators : List BridgeValidator
