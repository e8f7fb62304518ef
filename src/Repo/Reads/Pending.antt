-- ===== src/Repo/Reads/Pending.antt =====
-- The messages that wait for their execution.
use tokenbridge_monitor.Base.{
  ◌≡◌, ap, Bool, not, ◌&&◌, ◌==◌, String, List, map, any, filter_by, string_eq, bytes_eq,
}
use tokenbridge_monitor.Entity.{Message, ErcToNativeMessage}
use tokenbridge_monitor.Config.{BridgeMode, erc_to_native, arbitrary_message, other}
use tokenbridge_monitor.Repo.Store.{Store}
use tokenbridge_monitor.Repo.Join.{unmatched-left_join}
use tokenbridge_monitor.Exec.{ok, query, continue}
use tokenbridge_monitor.Exec.Retryable.{clean}
use tokenbridge_monitor.Repo.Reads.{BridgeMessage, amb, erc, find_pending_messages}

-- A message of the bridge with no execution of its id on that bridge.
abbrev pub is_pending : String → Store → Message → Bool
is_pending bridge_id s m =
    m.bridge_id == bridge_id
    && not (
        any (λ em. em.message_id == m.message_id && em.bridge_id == m.bridge_id)
          s.executed_messages)

abbrev pub is_pending_erc : String → Store → ErcToNativeMessage → Bool
is_pending_erc bridge_id s m =
    m.bridge_id == bridge_id
    && not
        (any (λ em. em.message_id == m.msg_hash && em.bridge_id == m.bridge_id) s.executed_messages)

abbrev pub pending_spec : String → BridgeMode → Store → List BridgeMessage
pending_spec bridge_id erc_to_native s =
    map (λ m. erc m) (filter_by (is_pending_erc bridge_id s) s.erc_to_native_messages)
pending_spec bridge_id arbitrary_message s =
    map (λ m. amb m) (filter_by (is_pending bridge_id s) s.messages)
pending_spec bridge_id (other _) s =
    map (λ m. amb m) (filter_by (is_pending bridge_id s) s.messages)

-- FindPendingMessages, where the database answers, returns each message of the bridge, of the kind
-- that its mode has, for which no execution with its id is recorded on the bridge, once and in the
-- order of insertion: the LEFT JOIN of the query is this condition.
pub find_pending_messages_lem :
    (bridge_id : String) (mode : BridgeMode) (s : Store)
    → find_pending_messages bridge_id mode (clean s) ≡ (ok (pending_spec bridge_id mode s), clean s)
unfolding find_pending_messages query continue
find_pending_messages_lem bridge_id erc_to_native s =
    ap (λ ms. (ok (map (λ m. erc m) ms), clean s))
      (unmatched-left_join (λ m. m.bridge_id == bridge_id) _ s.erc_to_native_messages
        s.executed_messages)
find_pending_messages_lem bridge_id arbitrary_message s =
    ap (λ ms. (ok (map (λ m. amb m) ms), clean s))
      (unmatched-left_join (λ m. m.bridge_id == bridge_id) _ s.messages s.executed_messages)
find_pending_messages_lem bridge_id (other _) s =
    ap (λ ms. (ok (map (λ m. amb m) ms), clean s))
      (unmatched-left_join (λ m. m.bridge_id == bridge_id) _ s.messages s.executed_messages)
