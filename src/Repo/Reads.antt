-- ===== src/Repo/Reads.antt =====
-- The methods of repository/postgres/*.go that only the presenter calls, and FindPendingMessages of
-- repository/repos.go. As in `Repo.Find`, rows whose order the query does not fix come in the order
-- of insertion, which is that of `created_at`.
pub mod Pending
use tokenbridge_monitor.Base.{
  ℕ, Bool, true, false, ◌&&◌, ◌==◌, String, Option, none, some, List, [], ◌∷◌, map, Bytes, any,
  find_by, filter_by, ltb, nat_eq, string_eq, bytes_eq,
}
use tokenbridge_monitor.Entity.{
  Address, Hash, Direction, Message, ErcToNativeMessage, SentMessage, SignedMessage,
  CollectedMessage, ExecutedMessage, InformationRequest, SentInformationRequest,
  SignedInformationRequest, ExecutedInformationRequest, Log,
}
use tokenbridge_monitor.Config.{BridgeMode, erc_to_native, arbitrary_message, other}
use tokenbridge_monitor.Repo.Store.{Store}
use tokenbridge_monitor.Repo.Join.{join, left_join, unmatched, order_by, bytes_before}
use tokenbridge_monitor.Exec.{Exec, ok, or_not_found, query, lift, ◌>>=◌}

-- entity/bridge_message.go: a message of either kind of bridge.
pub data BridgeMessage : Type 0 where
  amb : Message → BridgeMessage
  erc : ErcToNativeMessage → BridgeMessage

abbrev pub get_msg_hash : BridgeMessage → Hash
get_msg_hash (amb m) = m.msg_hash
get_msg_hash (erc m) = m.msg_hash

-- An ERC-TO-NATIVE message has no id but its hash.
abbrev pub get_message_id : BridgeMessage → Hash
get_message_id (amb m) = m.message_id
get_message_id (erc m) = m.msg_hash

abbrev pub get_direction : BridgeMessage → Direction
get_direction (amb m) = m.direction
get_direction (erc m) = m.direction

abbrev pub get_raw_message : BridgeMessage → Bytes
get_raw_message (amb m) = m.raw_message
get_raw_message (erc m) = m.raw_message

-- `msg_hash IN (…)`; no hashes let no row through.
abbrev one_of_hashes : List Hash → Hash → Bool
one_of_hashes hashes h = any (λ x. x == h) hashes

module _ (bridge_id : String) where
  unfoldable pub get_message_by_msg_hash : Hash → Exec Message
  get_message_by_msg_hash msg_hash = query λ s.
      or_not_found (find_by (λ r. r.bridge_id == bridge_id && r.msg_hash == msg_hash) s.messages)

  unfoldable pub get_message_by_message_id : Hash → Exec Message
  get_message_by_message_id message_id = query λ s.
      or_not_found
        (find_by (λ r. r.bridge_id == bridge_id && r.message_id == message_id) s.messages)

  unfoldable pub get_erc_to_native_message : Hash → Exec ErcToNativeMessage
  get_erc_to_native_message msg_hash = query λ s.
      or_not_found
        (find_by (λ r. r.bridge_id == bridge_id && r.msg_hash == msg_hash) s.erc_to_native_messages)

  unfoldable pub get_sent_message : Hash → Exec SentMessage
  get_sent_message msg_hash = query λ s.
      or_not_found
        (find_by (λ r. r.bridge_id == bridge_id && r.msg_hash == msg_hash) s.sent_messages)

  unfoldable pub find_sent_messages : List Hash → Exec (List SentMessage)
  find_sent_messages hashes = query λ s.
      ok (
        filter_by (λ r. r.bridge_id == bridge_id && one_of_hashes hashes r.msg_hash)
          s.sent_messages)

  unfoldable pub find_signed_messages : List Hash → Exec (List SignedMessage)
  find_signed_messages hashes = query λ s. ok (
      order_by (λ a b. bytes_before a.signer b.signer)
        (filter_by (λ r. r.bridge_id == bridge_id && one_of_hashes hashes r.msg_hash)
          s.signed_messages))

  -- The latest block first.
  unfoldable pub get_latest_signed_message : String → Address → Exec SignedMessage
  get_latest_signed_message chain_id signer = query λ s.
      let rows =
        filter_by
          (λ (r : SignedMessage × Log).
            r.0.bridge_id == bridge_id && r.0.signer == signer && r.1.chain_id == chain_id)
          (join (λ m l. l.id == m.log_id) s.signed_messages s.logs) in
      or_not_found (
        find_by (λ m. true)
          (map (λ (r : SignedMessage × Log). r.0)
            (order_by (λ (a b : SignedMessage × Log). ltb b.1.block_number a.1.block_number) rows)))

  unfoldable pub get_collected_message : Hash → Exec CollectedMessage
  get_collected_message msg_hash = query λ s.
      or_not_found
        (find_by (λ r. r.bridge_id == bridge_id && r.msg_hash == msg_hash) s.collected_messages)

  unfoldable pub get_executed_message : Hash → Exec ExecutedMessage
  get_executed_message message_id = query λ s.
      or_not_found
        (find_by (λ r. r.bridge_id == bridge_id && r.message_id == message_id) s.executed_messages)

  unfoldable pub get_information_request : Hash → Exec InformationRequest
  get_information_request message_id = query λ s.
      or_not_found (
        find_by (λ r. r.bridge_id == bridge_id && r.message_id == message_id)
          s.information_requests)

  unfoldable pub get_sent_information_request : Hash → Exec SentInformationRequest
  get_sent_information_request message_id = query λ s. or_not_found (
      find_by (λ r. r.bridge_id == bridge_id && r.message_id == message_id)
        s.sent_information_requests)

  unfoldable pub find_signed_information_requests : Hash → Exec (List SignedInformationRequest)
  find_signed_information_requests message_id = query λ s. ok (
      order_by (λ a b. bytes_before a.signer b.signer)
        (filter_by (λ r. r.bridge_id == bridge_id && r.message_id == message_id)
          s.signed_information_requests))

  unfoldable pub get_executed_information_request : Hash → Exec ExecutedInformationRequest
  get_executed_information_request message_id = query λ s. or_not_found (
      find_by (λ r. r.bridge_id == bridge_id && r.message_id == message_id)
        s.executed_information_requests)

  abbrev pub pending_messages : Store → List Message
  pending_messages s =
      unmatched (λ m. m.bridge_id == bridge_id)
        (left_join (λ m em. em.message_id == m.message_id && em.bridge_id == m.bridge_id) s.messages
          s.executed_messages)

  abbrev pub pending_erc_to_native_messages : Store → List ErcToNativeMessage
  pending_erc_to_native_messages s =
      unmatched (λ m. m.bridge_id == bridge_id)
        (left_join (λ m em. em.message_id == m.msg_hash && em.bridge_id == m.bridge_id)
          s.erc_to_native_messages s.executed_messages)

  abbrev find_pending_amb : Exec (List BridgeMessage)
  find_pending_amb = query λ s. ok (map (λ m. amb m) (pending_messages s))

  abbrev find_pending_erc : Exec (List BridgeMessage)
  find_pending_erc = query λ s. ok (map (λ m. erc m) (pending_erc_to_native_messages s))

  unfoldable pub find_pending_messages : BridgeMode → Exec (List BridgeMessage)
  find_pending_messages erc_to_native = find_pending_erc
  find_pending_messages arbitrary_message = find_pending_amb
  find_pending_messages (other _) = find_pending_amb

unfoldable pub get_sent_message_by_log_id : ℕ → Exec SentMessage
get_sent_message_by_log_id id =
    query λ s. or_not_found (find_by (λ r. r.log_id == id) s.sent_messages)

unfoldable pub get_signed_message_by_log_id : ℕ → Exec SignedMessage
get_signed_message_by_log_id id =
    query λ s. or_not_found (find_by (λ r. r.log_id == id) s.signed_messages)

unfoldable pub get_executed_message_by_log_id : ℕ → Exec ExecutedMessage
get_executed_message_by_log_id id =
    query λ s. or_not_found (find_by (λ r. r.log_id == id) s.executed_messages)

unfoldable pub get_sent_information_request_by_log_id : ℕ → Exec SentInformationRequest
get_sent_information_request_by_log_id id =
    query λ s. or_not_found (find_by (λ r. r.log_id == id) s.sent_information_requests)

unfoldable pub get_signed_information_request_by_log_id : ℕ → Exec SignedInformationRequest
get_signed_information_request_by_log_id id =
    query λ s. or_not_found (find_by (λ r. r.log_id == id) s.signed_information_requests)

unfoldable pub get_executed_information_request_by_log_id : ℕ → Exec ExecutedInformationRequest
get_executed_information_request_by_log_id id =
    query λ s. or_not_found (find_by (λ r. r.log_id == id) s.executed_information_requests)
