-- ===== src/Repo/Messages.antt =====
-- What repository/postgres/messages.go promises: a map from a bridge and a hash to the message that
-- came first. `Ensure` puts a message where there is none, `GetByMsgHash` looks one up.
use tokenbridge_monitor.Base.{
  ◌≡◌, refl, ap, ◌∙◌, sym, inl, inr, Bool, true, false, ◌&&◌, ◌==◌, String, Option, none, some,
  List, [], ◌∷◌, ◌++◌, arith, any, find_by, find_by-none, Bool-cases, bytes_eq, string_eq,
  if◌then◌else◌,
}
use tokenbridge_monitor.Entity.{Hash, Message}
use tokenbridge_monitor.Repo.Store.{Store}
use tokenbridge_monitor.Repo.Growing.{insert_into}
use tokenbridge_monitor.Repo.Table.{insert_row}
use tokenbridge_monitor.Repo.Ensure.{ensure_message}
use tokenbridge_monitor.Repo.Reads.{get_message_by_msg_hash}
use tokenbridge_monitor.Exec.{ok, or_not_found, statement, query, continue}
use tokenbridge_monitor.Exec.Retryable.{clean}

abbrev pub MessageMap : Type 0
MessageMap = String → Hash → Option Message

abbrev pub has_key : String → Hash → Message → Bool
has_key bridge_id msg_hash msg = msg.bridge_id == bridge_id && msg.msg_hash == msg_hash

abbrev first_of : Option Message → Option Message → Option Message
first_of none o = o
first_of (some m) o = some m

abbrev pub put_if_absent : Message → MessageMap → MessageMap
put_if_absent msg entries b h = first_of (entries b h) (if has_key b h msg then some msg else none)

-- The lookups of a session in which every call is answered are those of the map.
abbrev pub Represents : Store → MessageMap → Type 0
Represents s entries =
    (b : String) (h : Hash)
    → get_message_by_msg_hash b h (clean s) ≡ (or_not_found (entries b h), clean s)

module _ (msg : Message) where
  find-append :
      (p : Message → Bool) (rows : List Message)
      → find_by p (rows ++ msg ∷ []) ≡ first_of (find_by p rows) (if p msg then some msg else none)
  find-append p [] = refl
  find-append p (r ∷ rows) = elim (Bool-cases (p r)) [
    | inl hit ↦ rw hit refl
    | inr miss ↦ rw miss (find-append p rows)
  ]

  abbrev same_key : Message → Bool
  same_key r = has_key msg.bridge_id msg.msg_hash r

  kept_entry :
      (o : Option Message) (q : Bool)
      → (q ≡ true → o ≡ none → ⊥)
      → o ≡ first_of o (if q then some msg else none)
  kept_entry (some m) q h = refl
  kept_entry none true h = absurd (h refl refl)
  kept_entry none false h = refl

  same_key-true : (b : String) (h : Hash) → has_key b h msg ≡ true → has_key b h ≡ same_key
  same_key-true b h e =
      let same_bridge : msg.bridge_id ≡ b = (string_eq.same_iff msg.bridge_id b).0 (ground arith) in
      let same_hash : msg.msg_hash ≡ h = (bytes_eq.same_iff msg.msg_hash h).0 (ground arith) in
      rw (← same_bridge, ← same_hash) refl

  find-kept :
      (b : String) (h : Hash) (rows : List Message)
      → any same_key rows ≡ true
      → find_by (has_key b h) rows
        ≡ first_of (find_by (has_key b h) rows) (if has_key b h msg then some msg else none)
  find-kept b h rows old = kept_entry _ _ λ q e.
      let missing : any same_key rows ≡ false =
        find_by-none same_key rows (ap (λ p. find_by p rows) (sym (same_key-true b h q)) ∙ e) in
      absurd (cc (missing, old))

  -- The store that `Ensure` leaves, and what is found in its table.
  find-ensured :
      (s : Store)
      → (t : Store) × (ensure_message msg (clean s) ≡ (ok tt, clean t))
        × ((b : String) (h : Hash)
            → find_by (has_key b h) t.messages
              ≡ first_of
                  (find_by (has_key b h) s.messages)
                  (if has_key b h msg then some msg else none))
  unfolding ensure_message statement continue insert_into insert_row
  find-ensured s = elim (Bool-cases (any same_key s.messages)) [
    | inl old ↦ (s, rw old refl, λ b h. find-kept b h s.messages old)
    | inr new ↦ (
      record s { messages = s.messages ++ msg ∷ [] },
      rw new refl,
      λ b h. find-append (has_key b h) s.messages,
    )
  ]

or_not_found-same : {A : Type 0} (o p : Option A) → or_not_found o ≡ or_not_found p → o ≡ p
or_not_found-same none none e = refl
or_not_found-same none (some b) e = absurd (cc e)
or_not_found-same (some a) none e = absurd (cc e)
or_not_found-same (some a) (some b) e = cc e

-- Where the lookups of a database are those of a map, `Ensure` of a message succeeds when the calls
-- are answered, and the lookups afterwards are those of the map with the message put under its
-- bridge and hash if nothing was there.
pub ensure_message-Represents :
    (msg : Message) (s : Store) (entries : MessageMap)
    → Represents s entries
    → (t : Store) × (ensure_message msg (clean s) ≡ (ok tt, clean t))
      × Represents t (put_if_absent msg entries)
unfolding get_message_by_msg_hash query continue
ensure_message-Represents msg s entries rep =
    let (t, run, found) = find-ensured msg s in
    (
      t,
      run,
      λ b h.
          let before : find_by (has_key b h) s.messages ≡ entries b h =
            or_not_found-same _ _ (ap (λ p. p.0) (rep b h)) in
          ap (λ o. (or_not_found o, clean t))
            (found b h ∙ ap (λ o. first_of o (if has_key b h msg then some msg else none)) before),
    )
