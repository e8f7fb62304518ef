-- ===== src/Presenter/Search/Sent.antt =====
-- What a search shows for a log that a message was sent in.
use tokenbridge_monitor.Base.{
  Bool, true, false, not, any, inl, inr, Bool-cases, ℕ, ◌≡◌, refl, ap, ◌∙◌, sym, String, ◌&&◌,
  Option, none, some, List, [], ◌∷◌, find_by, find_by-some, ◌==◌, nat_eq, string_eq, bytes_eq,
  beq_refl, arith,
}
use tokenbridge_monitor.Entity.{Hash, Log, Message, SentMessage}
use tokenbridge_monitor.Config.Init.{Config}
use tokenbridge_monitor.Repo.Store.{Store}
use tokenbridge_monitor.Repo.Reads.{
  BridgeMessage, amb, erc, get_msg_hash, get_message_id, get_message_by_msg_hash,
  get_erc_to_native_message, get_sent_message_by_log_id, get_sent_message,
}
use tokenbridge_monitor.Exec.{ok, Session, Exec, or_not_found, query, lift, continue, ◌>>=◌}
use tokenbridge_monitor.Exec.Retryable.{clean}
use tokenbridge_monitor.Exec.Sequence.{bind-ok, lift-ok, lift-same, query-bind-ok, or_not_found-ok}
use tokenbridge_monitor.Presenter.Types.{EventInfo, SearchResult, TxInfo}
use tokenbridge_monitor.Presenter.Events.{
  optional, found_or_none, bare_event, enrich_events, build_message_events,
}
use tokenbridge_monitor.Presenter.Search.{
  find_bridge_message, amb_or_erc, as_amb, build_search_result_for_message, search_sent_message,
  search_tasks, first_result, attempted, with_event,
}

-- The message that the log `id` has sent was sent by no other log. The schema does not say so: its
-- index on the bridge and the hash is not unique since db/migrations/000004.
abbrev pub SentOnce : ℕ → List SentMessage → Type 0
SentOnce id rows =
    (r : SentMessage)
    → find_by (λ x. x.log_id == id) rows ≡ some r
    → any (λ x. (x.bridge_id == r.bridge_id && x.msg_hash == r.msg_hash) && not (x.log_id == id))
        rows
      ≡ false

-- A row that one test finds is found by another that no other row passes.
find_by-only :
    {R : Type 0} (p k : R → Bool) (rows : List R) (r : R)
    → find_by p rows ≡ some r
    → k r ≡ true
    → any (λ x. k x && not (p x)) rows ≡ false
    → find_by k rows ≡ some r
find_by-only p k [] r h kr none_other = absurd (cc h)
find_by-only p k (x ∷ rows) r h kr none_other = elim (Bool-cases (p x)) [
  | inl hit ↦
      let it : some x ≡ some r = rw hit at h in let same : x ≡ r = cc it in rw (same, kr) refl
  | inr miss ↦
      let other : k x ≡ false = ground arith in
      rw other (find_by-only p k rows r (rw miss at h) kr (ground arith))
]

or_not_found-bind-ok :
    {A B : Type 0} (o : Option A) (g : Option A → Exec B) (s : Store) (b : B) (s' : Session)
    → continue (found_or_none (or_not_found o)) g (clean s) ≡ (ok b, s')
    → g o (clean s) ≡ (ok b, s')
unfolding continue
or_not_found-bind-ok none g s b s' h = h
or_not_found-bind-ok (some a) g s b s' h = h

-- An optional query at the front of a sequence.
optional-bind-ok :
    {A B : Type 0} (f : Store → Option A) (g : Option A → Exec B) (s : Store) (b : B) (s' : Session)
    → (optional (query λ t. or_not_found (f t)) >>= g) (clean s) ≡ (ok b, s')
    → g (f s) (clean s) ≡ (ok b, s')
unfolding optional query continue ◌>>=◌
optional-bind-ok f g s b s' h = or_not_found-bind-ok (f s) g s b s' h

amb_or_erc-hash :
    (bridge_id : String) (h : Hash) (o : Option BridgeMessage) (s : Store) (msg : BridgeMessage)
    (s' : Session)
    → ((m : BridgeMessage) → o ≡ some m → get_msg_hash m ≡ h)
    → amb_or_erc bridge_id h o (clean s) ≡ (ok msg, s')
    → (get_msg_hash msg ≡ h) × (s' ≡ clean s)
unfolding get_erc_to_native_message
amb_or_erc-hash bridge_id h (some m) s msg s' found e = (
  ap get_msg_hash (sym (lift-ok m msg (clean s) s' e)) ∙ found m refl,
  lift-same (ok m) (ok msg) (clean s) s' e,
)
amb_or_erc-hash bridge_id h none s msg s' found e =
    let (m, there, g) = query-bind-ok _ _ s msg s' e in
    let hit = (find_by-some _ s.erc_to_native_messages m (or_not_found-ok _ m there)).0 in
    let same : m.msg_hash ≡ h = (bytes_eq.same_iff m.msg_hash h).0 (ground (arith, hit)) in
    (
      ap get_msg_hash (sym (lift-ok (erc m) msg (clean s) s' g)) ∙ same,
      lift-same (ok (erc m)) (ok msg) (clean s) s' g,
    )

amb-hash :
    (bridge_id : String) (h : Hash) (rows : List Message) (o : Option Message)
    → find_by (λ r. r.bridge_id == bridge_id && r.msg_hash == h) rows ≡ o
    → (m : BridgeMessage) → as_amb (λ r. amb r) o ≡ some m
    → get_msg_hash m ≡ h
amb-hash bridge_id h rows none e m f = absurd (cc f)
amb-hash bridge_id h rows (some r) e m f =
    let hit = (find_by-some _ rows r e).0 in
    let same : r.msg_hash ≡ h = (bytes_eq.same_iff r.msg_hash h).0 (ground (arith, hit)) in
    let it : amb r ≡ m = cc f in ap get_msg_hash (sym it) ∙ same

find_bridge_message-hash :
    (bridge_id : String) (h : Hash) (s : Store) (msg : BridgeMessage) (s' : Session)
    → find_bridge_message bridge_id (some h) none (clean s) ≡ (ok msg, s')
    → (get_msg_hash msg ≡ h) × (s' ≡ clean s)
unfolding find_bridge_message get_message_by_msg_hash
find_bridge_message-hash bridge_id h s msg s' e =
    let rest =
      optional-bind-ok (λ t. find_by (λ r. r.bridge_id == bridge_id && r.msg_hash == h) t.messages)
        (λ o. amb_or_erc bridge_id h (as_amb (λ m. amb m) o)) s msg s' e in
    amb_or_erc-hash bridge_id h _ s msg s' (amb-hash bridge_id h s.messages _ refl) rest

-- The first of the events, with its transaction.
enrich_events-first :
    (cfg : Config) (e : EventInfo) (es evs : List EventInfo) (s s' : Session)
    → enrich_events cfg (e ∷ es) s ≡ (ok evs, s')
    → (t : TxInfo) × (rest : List EventInfo) × (evs ≡ record e { tx_info = some t } ∷ rest)
unfolding enrich_events
enrich_events-first cfg e es evs s s' h =
    let (t, s1, _, g) = bind-ok _ _ s evs s' h in
    let (rest, s2, _, g') = bind-ok _ _ s1 evs s' g in
    (t, rest, sym (lift-ok (record e { tx_info = some t } ∷ rest) evs s2 s' g'))

build_message_events-sent :
    (cfg : Config) (sent : SentMessage) (message_id : Hash) (s : Store) (evs : List EventInfo)
    (s' : Session)
    → find_by (λ x. x.bridge_id == sent.bridge_id && x.msg_hash == sent.msg_hash) s.sent_messages
      ≡ some sent
    → build_message_events cfg sent.bridge_id sent.msg_hash message_id (clean s) ≡ (ok evs, s')
    → (t : TxInfo) × (rest : List EventInfo) × (evs
        ≡ record (bare_event "SENT_MESSAGE" sent.log_id) { tx_info = some t } ∷ rest)
unfolding build_message_events get_sent_message
build_message_events-sent cfg sent message_id s evs s' found h =
    let g = rw found at (optional-bind-ok _ _ s evs s' h) in
    let (signed, s1, _, g1) = bind-ok _ _ (clean s) evs s' g in
    let (collected, s2, _, g2) = bind-ok _ _ s1 evs s' g1 in
    let (executed, s3, _, g3) = bind-ok _ _ s2 evs s' g2 in
    enrich_events-first cfg (bare_event "SENT_MESSAGE" sent.log_id) _ evs s3 s' g3

module _ (keccak256_text : String → Hash) (cfg : Config) (log : Log) (s : Store) where
  search_sent_message-first :
      SentOnce log.id s.sent_messages
      → (res : SearchResult) (s' : Session)
      → search_sent_message keccak256_text cfg log (clean s) ≡ (ok res, s')
      → (t : TxInfo) × (rest : List EventInfo) × (res.related_events
          ≡ record (bare_event "SENT_MESSAGE" log.id) { tx_info = some t } ∷ rest)
  unfolding search_sent_message build_search_result_for_message get_sent_message_by_log_id
  search_sent_message-first once res s' h =
      let (sent, there, g) = query-bind-ok _ _ s res s' h in
      let row : find_by (λ r. r.log_id == log.id) s.sent_messages ≡ some sent =
        or_not_found-ok _ sent there in
      let found : find_by (λ x. x.bridge_id == sent.bridge_id && x.msg_hash == sent.msg_hash)
            s.sent_messages
          ≡ some sent =
        find_by-only (λ r. r.log_id == log.id)
          (λ x. x.bridge_id == sent.bridge_id && x.msg_hash == sent.msg_hash) s.sent_messages sent
          row (rw (beq_refl sent.bridge_id, beq_refl sent.msg_hash) refl) (once sent row) in
      let (msg, s1, e1, g1) = bind-ok _ _ (clean s) res s' g in
      let (same, unmoved) = find_bridge_message-hash sent.bridge_id sent.msg_hash s msg s1 e1 in
      let (evs, s2, e2, g2) = bind-ok _ _ s1 res s' g1 in
      let (t, rest, first) =
        build_message_events-sent cfg sent (get_message_id msg) s evs s2 found
          (rw (same, unmoved) at e2) in
      let id : sent.log_id ≡ log.id =
        (nat_eq.same_iff sent.log_id log.id).0 (find_by-some _ s.sent_messages sent row).0 in
      let events : evs ≡ res.related_events =
        ap (λ (r : SearchResult). r.related_events) (lift-ok _ res s2 s' g2) in
      (t, rest, sym events ∙ first ∙ rw id refl)

  pub first_result-sent :
      SentOnce log.id s.sent_messages
      → (res : SearchResult) (s' : Session)
      → search_sent_message keccak256_text cfg log (clean s) ≡ (ok res, s')
      → (t : TxInfo) × (shown : SearchResult) × (first_result
            (search_tasks keccak256_text cfg)
            log
            (clean s)
          ≡ (ok (shown ∷ []), s'))
        × (shown.event ≡ some (record (bare_event "SENT_MESSAGE" log.id) { tx_info = some t }))
        × (shown.related_events ≡ res.related_events)
  unfolding first_result search_tasks attempted lift continue ◌>>=◌
  first_result-sent once res s' h =
      let (t, rest, first) = search_sent_message-first once res s' h in
      (t, with_event log.id res, rw h refl, rw (first, beq_refl log.id) refl, refl)
