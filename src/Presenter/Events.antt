-- ===== src/Presenter/Events.antt =====
-- presenter/presenter.go: the events of a message or of an information request, each with the
-- transaction it came from.
use tokenbridge_monitor.Base.{
  ℕ, String, true, false, Option, none, some, List, [], ◌∷◌, ◌++◌, map, ◌==◌, string_eq,
}
use tokenbridge_monitor.Entity.{
  Hash, SentMessage, SignedMessage, CollectedMessage, ExecutedMessage, InformationRequest,
  SentInformationRequest, SignedInformationRequest, ExecutedInformationRequest,
}
use tokenbridge_monitor.Config.{ChainConfig}
use tokenbridge_monitor.Config.Init.{Config, get_chain_config}
use tokenbridge_monitor.Exec.{Result, ok, err, panic, not_found, Exec, lift, ◌>>=◌}
use tokenbridge_monitor.Repo.Find.{get_log_by_id, get_block_timestamp}
use tokenbridge_monitor.Repo.Reads.{
  get_sent_message, find_signed_messages, get_collected_message, get_executed_message,
  get_sent_information_request, find_signed_information_requests, get_executed_information_request,
}
use tokenbridge_monitor.Presenter.Types.{EventInfo, TxInfo, TxLink, hash_text, formatted}

-- config/config.go; a chain without configuration has no format.
abbrev pub format_tx_link : Option ChainConfig → Hash → TxLink
format_tx_link none tx_hash = hash_text tx_hash
format_tx_link (some cfg) tx_hash = elim (cfg.explorer_tx_link_format == "") [
  | true ↦ hash_text tx_hash
  | false ↦ formatted cfg.explorer_tx_link_format tx_hash
]

-- A read followed by `db.IgnoreErrNotFound`: no row is `none`.
abbrev pub found_or_none : {A : Type 0} → Result A → Result (Option A)
found_or_none (ok a) = ok (some a)
found_or_none (err not_found) = ok none
found_or_none (err e) = err e
found_or_none panic = panic

unfoldable pub optional : {A : Type 0} → Exec A → Exec (Option A)
optional m s = let (r, s') = m s in (found_or_none r, s')

abbrev pub bare_event : String → ℕ → EventInfo
bare_event action log_id = record {
  action = action;
  log_id = log_id;
  signer = none;
  payload = [];
  count = 0;
  status = false;
  callback_status = false;
  tx_info = none;
}

abbrev pub each : {A : Type 0} → Option A → (A → EventInfo) → List EventInfo
each none f = []
each (some a) f = f a ∷ []

abbrev pub message_events :
    Option SentMessage
    → List SignedMessage
    → Option CollectedMessage
    → Option ExecutedMessage
    → List EventInfo
message_events sent signed collected executed =
    each sent (λ m. bare_event "SENT_MESSAGE" m.log_id)
    ++ map (λ m. record (bare_event "SIGNED_MESSAGE" m.log_id) { signer = some m.signer }) signed
    ++ each collected
        (λ m. record (bare_event "COLLECTED_SIGNATURES" m.log_id) { count = m.num_signatures })
    ++ each executed (λ m. record (bare_event "EXECUTED_MESSAGE" m.log_id) { status = m.status })

abbrev pub information_request_events :
    Option SentInformationRequest
    → List SignedInformationRequest
    → Option ExecutedInformationRequest
    → List EventInfo
information_request_events sent signed executed =
    each sent (λ m. bare_event "SENT_INFORMATION_REQUEST" m.log_id)
    ++ map
        (λ m. record (bare_event "SIGNED_INFORMATION_REQUEST" m.log_id) {
          signer = some m.signer;
          payload = m.payload;
        })
        signed
    ++ each executed (λ m. record (bare_event "EXECUTED_INFORMATION_REQUEST" m.log_id) {
      status = m.status;
      callback_status = m.callback_status;
    })

module _ (cfg : Config) where
  unfoldable pub get_tx_info : ℕ → Exec TxInfo
  get_tx_info log_id = do
    log ← get_log_by_id log_id
    bt ← get_block_timestamp log.chain_id log.block_number
    lift (
        ok (record {
          block_number = log.block_number;
          timestamp = bt.timestamp;
          link = format_tx_link (get_chain_config cfg log.chain_id) log.transaction_hash;
        }))

  unfoldable pub enrich_events : List EventInfo → Exec (List EventInfo)
  unfolding get_tx_info
  enrich_events [] = lift (ok [])
  enrich_events (event ∷ events) = do
    tx_info ← get_tx_info event.log_id
    rest ← enrich_events events
    lift (ok (record event { tx_info = some tx_info } ∷ rest))

  unfoldable pub build_message_events : String → Hash → Hash → Exec (List EventInfo)
  unfolding enrich_events optional
  build_message_events bridge_id msg_hash message_id = do
    sent ← optional (get_sent_message bridge_id msg_hash)
    signed ← find_signed_messages bridge_id (msg_hash ∷ [])
    collected ← optional (get_collected_message bridge_id msg_hash)
    executed ← optional (get_executed_message bridge_id message_id)
    enrich_events (message_events sent signed collected executed)

  unfoldable pub build_information_request_events : InformationRequest → Exec (List EventInfo)
  unfolding enrich_events optional
  build_information_request_events req = do
    sent ← optional (get_sent_information_request req.bridge_id req.message_id)
    signed ← find_signed_information_requests req.bridge_id req.message_id
    executed ← optional (get_executed_information_request req.bridge_id req.message_id)
    enrich_events (information_request_events sent signed executed)
