-- ===== src/Tests/Searching.antt =====
-- The presenter on the small bridge: known methods and the search for a transaction.
use tokenbridge_monitor.Base.{
  ℕ, suc, ◌≡◌, refl, ap, ◌∙◌, sym, inl, inr, String, true, none, some, List, [], ◌∷◌, any, ◌==◌,
  nat_eq, string_eq, bytes_eq, Bool-cases, if◌then◌else◌, arith,
}
use tokenbridge_monitor.Entity.{Hash, SentMessage}
use tokenbridge_monitor.Config.Init.{get_chain_config}
use tokenbridge_monitor.Repo.Store.{Store}
use tokenbridge_monitor.Repo.Reads.{amb}
use tokenbridge_monitor.Exec.{ok, query, continue, lift, ◌>>=◌}
use tokenbridge_monitor.Exec.Retryable.{clean}
use tokenbridge_monitor.Presenter.Types.{
  decoded, decode_request_selector, arbitrary_message_methods,
}
use tokenbridge_monitor.Presenter.Types.{
  EventInfo, TxInfo, SearchResult, hash_text, new_bridge_message_info,
}
use tokenbridge_monitor.Presenter.Events.{
  bare_event, build_message_events, enrich_events, get_tx_info,
}
use tokenbridge_monitor.Presenter.Search.{
  search_sent_message, first_result, search_tasks, build_search_result_for_message,
  find_bridge_message,
}
use tokenbridge_monitor.Presenter.Search.Sent.{SentOnce, first_result-sent}
use tokenbridge_monitor.Repo.Find.{get_log_by_id, get_block_timestamp}
use tokenbridge_monitor.Repo.Reads.{
  get_sent_message_by_log_id, get_message_by_msg_hash, get_sent_message, find_signed_messages,
  get_collected_message, get_executed_message,
}
use tokenbridge_monitor.Tests.Values.{log_at}
use tokenbridge_monitor.Presenter.Types.Selectors.{NoCollisions, decode_request_selector-keccak}
use tokenbridge_monitor.Presenter.Events.{optional}
use tokenbridge_monitor.Tests.Presenting.{pending_store, some-injective, some_config, some_message}

-- A hash without collisions on the methods: the place in their list.
abbrev position : List String → String → ℕ
position [] s = 0
position (x ∷ xs) s = let rest = position xs s in if x == s then 0 else suc rest

position-injective :
    (xs : List String) (s t : String)
    → any (λ x. x == s) xs ≡ true
    → any (λ x. x == t) xs ≡ true
    → position xs s ≡ position xs t
    → s ≡ t
position-injective [] s t hs ht h = absurd (cc hs)
position-injective (x ∷ xs) s t hs ht h = elim (Bool-cases (x == s)) [
  | inl is_s ↦ elim (Bool-cases (x == t)) [
    | inl is_t ↦ sym ((string_eq.same_iff x s).0 is_s) ∙ (string_eq.same_iff x t).0 is_t
    | inr not_t ↦ absurd (ground arith)
  ]
  | inr not_s ↦ elim (Bool-cases (x == t)) [
    | inl is_t ↦ absurd (ground arith)
    | inr not_t ↦ position-injective xs s t (ground arith) (ground arith) (ground arith)
  ]
]

abbrev some_hash : String → Hash
some_hash s = position arbitrary_message_methods s ∷ []

abbrev first_of : Hash → ℕ
first_of [] = 0
first_of (n ∷ ns) = n

some_hash-NoCollisions : NoCollisions some_hash
some_hash-NoCollisions s t hs ht h =
    position-injective arbitrary_message_methods s t hs ht (ap first_of h)

decode_request_selector-keccak_example :
    decode_request_selector some_hash (some_hash "eth_blockNumber()") ≡ decoded "eth_blockNumber()"
decode_request_selector-keccak_example =
    decode_request_selector-keccak some_hash some_hash-NoCollisions "eth_blockNumber()" refl

abbrev some_sent : SentMessage
some_sent = record { log_id = 3; bridge_id = "test-amb"; msg_hash = 6 ∷ [] }

abbrev sent_store : Store
sent_store = record pending_store { sent_messages = some_sent ∷ [] }

sent_store-SentOnce : SentOnce 3 sent_store.sent_messages
sent_store-SentOnce r h = let same : some_sent ≡ r = some-injective h in rw (← same) refl

abbrev sending : EventInfo
sending = record (bare_event "SENT_MESSAGE" 3) {
  tx_info = some (record { block_number = 107; timestamp = 1000; link = hash_text (4 ∷ []) });
}

abbrev signing : EventInfo
signing = record (bare_event "SIGNED_MESSAGE" 3) {
  signer = some (5 ∷ []);
  tx_info = some (record { block_number = 107; timestamp = 1000; link = hash_text (4 ∷ []) });
}

abbrev sent_result : SearchResult
sent_result = record {
  event = none;
  view = new_bridge_message_info (amb some_message);
  related_events = sending ∷ signing ∷ [];
}

search_test :
    search_sent_message (λ s. []) some_config (log_at 3 107 7) (clean sent_store)
    ≡ (ok sent_result, clean sent_store)
unfolding search_sent_message get_sent_message_by_log_id build_search_result_for_message
    find_bridge_message get_message_by_msg_hash build_message_events get_sent_message
    find_signed_messages get_collected_message get_executed_message enrich_events get_tx_info
    get_log_by_id get_block_timestamp get_chain_config optional query continue lift ◌>>=◌
search_test = refl

first_result-sent_example :
    (t : TxInfo) × (shown : SearchResult) × (first_result
        (search_tasks (λ s. []) some_config)
        (log_at 3 107 7)
        (clean sent_store)
      ≡ (ok (shown ∷ []), clean sent_store))
    × (shown.event ≡ some (record (bare_event "SENT_MESSAGE" 3) { tx_info = some t }))
    × (shown.related_events ≡ sending ∷ signing ∷ [])
first_result-sent_example =
    first_result-sent (λ s. []) some_config (log_at 3 107 7) sent_store sent_store-SentOnce
      sent_result (clean sent_store) search_test
