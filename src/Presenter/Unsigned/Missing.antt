-- ===== src/Presenter/Unsigned/Missing.antt =====
-- What the handler of unsigned messages answers.
use tokenbridge_monitor.Base.{
  ℕ, String, ◌≡◌, refl, ◌∙◌, inl, inr, Bool, true, not, ◌||◌, ◌&&◌, List, [], map, any, filter_by,
  length, All, All-imp, All-any-not, any-same, any-never, ◌==◌, bytes_eq, string_eq, nat_eq,
  Bool-cases, arith, Bytes,
}
use tokenbridge_monitor.Entity.{Hash, Address, SignedMessage, SentMessage}
use tokenbridge_monitor.Config.{BridgeConfig}
use tokenbridge_monitor.Config.Init.{Config}
use tokenbridge_monitor.Repo.Store.{Store}
use tokenbridge_monitor.Repo.Join.{order_by, bytes_before, any-order_by, any-filter_by}
use tokenbridge_monitor.Repo.Find.{find_active_validators, is_active, find_logs_by_ids, sort_logs}
use tokenbridge_monitor.Repo.Reads.{BridgeMessage, find_signed_messages, find_sent_messages}
use tokenbridge_monitor.Repo.Reads.Pending.{pending_spec, find_pending_messages_lem}
use tokenbridge_monitor.Exec.{Result, ok, query, continue, lift, ◌>>=◌}
use tokenbridge_monitor.Exec.Retryable.{clean}
use tokenbridge_monitor.Presenter.Types.{TxLink, UnsignedMessagesInfo}
use tokenbridge_monitor.Presenter.Bridges.{find_active_validator_addresses}
use tokenbridge_monitor.Presenter.Signers.{SignersMap, make_signers_map, has_signed, parse_files}
use tokenbridge_monitor.Presenter.Signers.Maps.{listed}
use tokenbridge_monitor.Presenter.Signers.Marks.{brought, make_signers_map_lem}
use tokenbridge_monitor.Presenter.Unsigned.{
  pending_hash, pending_by_hash, raw_by_hash, sent_tx_links, unsigned_messages_of,
  get_messages_with_missing_signatures, hash_by_log_id,
}
use tokenbridge_monitor.Presenter.Unsigned.Outgoing.{LastOfEach, pending_by_hash-LastOfEach}
use tokenbridge_monitor.Presenter.Unsigned.Shown.{
  AgreeOn, All-listed_self, Listed, pending_by_hash-Listed, signed_by, unsigned_messages_of-spec,
  unsigned_spec, view_of,
}

signatures_found : String → Store → List Hash → List SignedMessage
signatures_found bridge_id s hashes =
    order_by (λ a b. bytes_before a.signer b.signer)
      (filter_by (λ sig. sig.bridge_id == bridge_id && listed hashes sig.msg_hash)
        s.signed_messages)

module _ (bridge_id : String) (s : Store) (hashes : List Hash) where
  any-signatures_found :
      (p : SignedMessage → Bool)
      → any p (signatures_found bridge_id s hashes)
        ≡ any
            (λ sig. (sig.bridge_id == bridge_id && listed hashes sig.msg_hash) && p sig)
            s.signed_messages
  unfolding signatures_found
  any-signatures_found p = any-order_by _ p _ ∙ any-filter_by p _ s.signed_messages

  signatures_found-listed :
      All (λ sig. listed hashes sig.msg_hash ≡ true) (signatures_found bridge_id s hashes)
  signatures_found-listed =
      All-any-not (λ sig. listed hashes sig.msg_hash) _
        (any-signatures_found (λ sig. not (listed hashes sig.msg_hash))
          ∙ any-never _ s.signed_messages (λ sig. ground arith))

  signed_by-listed :
      (manual : SignersMap) (h : Hash) (a : Address)
      → listed hashes h ≡ true
      → (any (λ sig. sig.msg_hash == h && sig.signer == a) (signatures_found bridge_id s hashes)
          || brought (listed hashes) manual h a)
        ≡ signed_by bridge_id s manual h a
  signed_by-listed manual h a known = rw (
    any-signatures_found (λ sig. sig.msg_hash == h && sig.signer == a),
    any-same _ (λ sig. sig.bridge_id == bridge_id && (sig.msg_hash == h && sig.signer == a))
        s.signed_messages at_hash,
    known,
  )
    where
      at_hash :
          (sig : SignedMessage)
          → ((sig.bridge_id == bridge_id && listed hashes sig.msg_hash)
              && (sig.msg_hash == h && sig.signer == a))
            ≡ (sig.bridge_id == bridge_id && (sig.msg_hash == h && sig.signer == a))
      at_hash sig = elim (Bool-cases (sig.msg_hash == h)) [
        | inl same ↦
            let e : sig.msg_hash ≡ h = (bytes_eq.same_iff sig.msg_hash h).0 same in
            let l : listed hashes sig.msg_hash ≡ true = rw e known in rw (l, same) (ground arith)
        | inr other ↦ rw other (ground arith)
      ]

abbrev pub active_addresses : String → String → Store → List Address
active_addresses bridge_id chain_id s =
    map (λ v. v.address) (filter_by (is_active bridge_id chain_id) s.bridge_validators)

module _ (cfg : Config) (text_hash : Bytes → Hash) (recover : Hash → Bytes → Result Address)
    (required : ℕ) (files : List (Result (List (Hash × Bytes)))) (manual : SignersMap)
    (bridge : BridgeConfig) (s : Store) where
  abbrev pending_bridge_messages : List BridgeMessage
  pending_bridge_messages = pending_spec bridge.id bridge.bridge_mode s

  abbrev by_hash : List (Hash × BridgeMessage)
  by_hash = pending_by_hash pending_bridge_messages []

  abbrev hashes : List Hash
  hashes = map pending_hash pending_bridge_messages

  by_hash-AgreeOn :
      (m : SignersMap)
      → ((h : Hash) (a : Address)
          → has_signed m h a ≡ (
              any
                (λ sig. sig.msg_hash == h && sig.signer == a)
                (signatures_found bridge.id s hashes)
              || brought (listed hashes) manual h a))
      → All (AgreeOn m (signed_by bridge.id s manual)) by_hash
  by_hash-AgreeOn m marks =
      All-imp (Listed hashes) (AgreeOn m (signed_by bridge.id s manual)) by_hash
        (λ e known a. marks e.0 a ∙ signed_by-listed bridge.id s hashes manual e.0 a known)
        (pending_by_hash-Listed hashes pending_bridge_messages []
          (All-listed_self pending_hash pending_bridge_messages) tt)

  abbrev sent_rows : List SentMessage
  sent_rows = filter_by (λ r. r.bridge_id == bridge.id && listed hashes r.msg_hash) s.sent_messages

  abbrev tx_links : List (Hash × TxLink)
  unfolding sort_logs
  tx_links =
      sent_tx_links cfg (hash_by_log_id sent_rows [])
        (sort_logs (filter_by (λ l. any (λ id. l.id == id) (map (λ m. m.log_id) sent_rows)) s.logs))
        []

  answer : SignersMap → UnsignedMessagesInfo
  unfolding tx_links
  answer m =
      let validators = active_addresses bridge.id bridge.foreign.chain.chain_id s in
      let unsigned = unsigned_messages_of validators required m tx_links by_hash in
      record {
        required_signatures = required;
        active_validators = validators;
        total_pending_messages = length hashes;
        total_unsigned_messages = length unsigned;
        unsigned_messages = unsigned;
      }

  answered :
      (m : SignersMap)
      → parse_files text_hash recover (raw_by_hash by_hash) files [] ≡ ok manual
      → make_signers_map hashes (signatures_found bridge.id s hashes) manual ≡ ok m
      → get_messages_with_missing_signatures cfg text_hash recover
          (ok required)
          (ok files)
          bridge
          (clean s)
        ≡ (ok (answer m), clean s)
  unfolding get_messages_with_missing_signatures find_active_validator_addresses
      find_active_validators find_signed_messages find_sent_messages find_logs_by_ids query continue
      lift ◌>>=◌ answer tx_links signatures_found
  answered m parsed done =
      rw (find_pending_messages_lem bridge.id bridge.bridge_mode s, parsed, done) refl

  -- Where the database and the node answer and the files of the request can be read, the handler of
  -- unsigned messages answers with the active validators of the foreign side. Of the pending messages
  -- from home to foreign, for each hash the last one, it lists just those that have fewer signatures
  -- of these validators than the contract requires. Beside each stand the validators who have signed
  -- it, by a recorded signature or one in the files, and those who have not.
  pub missing_signatures_lem :
      parse_files text_hash recover (raw_by_hash by_hash) files [] ≡ ok manual
      → (info : UnsignedMessagesInfo) × (entries : List (Hash × BridgeMessage))
        × (get_messages_with_missing_signatures cfg text_hash recover
              (ok required)
              (ok files)
              bridge
              (clean s)
            ≡ (ok info, clean s))
        × (info.active_validators ≡ active_addresses bridge.id bridge.foreign.chain.chain_id s)
        × LastOfEach (pending_spec bridge.id bridge.bridge_mode s) entries
        × (map view_of info.unsigned_messages
            ≡ unsigned_spec
                (signed_by bridge.id s manual)
                (active_addresses bridge.id bridge.foreign.chain.chain_id s)
                required
                entries)
  unfolding answer tx_links
  missing_signatures_lem parsed =
      let validators = active_addresses bridge.id bridge.foreign.chain.chain_id s in
      let sigs = signatures_found bridge.id s hashes in
      let (m, done, marks) =
        make_signers_map_lem hashes sigs manual (signatures_found-listed bridge.id s hashes) in
      (
        answer m,
        by_hash,
        answered m parsed done,
        refl,
        pending_by_hash-LastOfEach pending_bridge_messages,
        unsigned_messages_of-spec (signed_by bridge.id s manual) validators required m tx_links
            by_hash (by_hash-AgreeOn m marks),
      )
