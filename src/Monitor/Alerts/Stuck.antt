-- ===== src/Monitor/Alerts/Stuck.antt =====
-- db_alerts_provider.go: messages and requests that are not through yet, and requests whose
-- validators do not agree. GROUP BY collects the rows with the same key, in the order of the first
-- of each; UNION leaves out what is there already.
use tokenbridge_monitor.Base.{
  ℕ, Bool, true, false, not, ◌&&◌, ◌||◌, Option, List, [], ◌∷◌, ◌++◌, map, any, filter_by, length,
  leb, ◌==◌, nat_eq, string_eq, bytes_eq, if◌then◌else◌,
}
use tokenbridge_monitor.Entity.{
  Address, Hash, Direction, home_to_foreign, foreign_to_home, SentMessage, Message, SignedMessage,
  CollectedMessage, ExecutedMessage,
}
use tokenbridge_monitor.Repo.Store.{Store}
use tokenbridge_monitor.Repo.Join.{join, left_join, is_none}
use tokenbridge_monitor.Exec.{ok, Exec, query}
use tokenbridge_monitor.Monitor.Alerts.Tables.{
  AlertJobParams, Place, Located, place_of, row_of, located,
}

-- The rows with the key of `r` join its group, which stands where `r` stood first.
abbrev add_to_group : {A : Type 0} → (A → A → Bool) → A → List (A × List A) → List (A × List A)
add_to_group same r [] = (r, r ∷ []) ∷ []
add_to_group same r ((k, g) ∷ groups) =
    let rest = add_to_group same r groups in
    if same k r then (k, g ++ r ∷ []) ∷ groups else (k, g) ∷ rest

abbrev collect_groups :
    {A : Type 0} → (A → A → Bool) → List A → List (A × List A) → List (A × List A)
collect_groups same [] groups = groups
collect_groups same (r ∷ rs) groups = collect_groups same rs (add_to_group same r groups)

abbrev pub group_by : {A : Type 0} → (A → A → Bool) → List A → List (A × List A)
group_by same rs = collect_groups same rs []

abbrev pub union_rows : {A : Type 0} → (A → A → Bool) → List A → List A → List A
union_rows same seen [] = []
union_rows same seen (r ∷ rs) =
    let with_r = union_rows same (r ∷ seen) rs in
    let without = union_rows same seen rs in
    if any (λ x. same x r) seen then without else r ∷ with_r

-- `count(column)` of a column of the outer side: the rows in which it is not NULL.
abbrev pub count_some : {A B : Type 0} → (A → Option B) → List A → ℕ
count_some column rows = length (filter_by (λ r. not (is_none (column r))) rows)

-- Two rows of one group: the same log and the same time of its block.
abbrev pub same_place : Place → Place → Bool
same_place p q =
    p.chain_id == q.chain_id
    && p.block_number == q.block_number
    && p.timestamp == q.timestamp
    && p.transaction_hash == q.transaction_hash

abbrev pub is_home_to_foreign : Direction → Bool
is_home_to_foreign home_to_foreign = true
is_home_to_foreign foreign_to_home = false

pub record StuckMessage : Type 0 where
  pub place : Place
  pub msg_hash : Hash
  pub count : ℕ

abbrev same_stuck : StuckMessage → StuckMessage → Bool
same_stuck a b = same_place a.place b.place && a.msg_hash == b.msg_hash && a.count == b.count

-- sent_messages, its log and block, and the message.
abbrev SentRow : Type 0
SentRow = Located SentMessage × Message

-- Then the signatures and the collected one, or none; then the execution, or none.
abbrev HomeRow : Type 0
HomeRow = ((SentRow × Option SignedMessage) × Option CollectedMessage) × Option ExecutedMessage

abbrev ForeignRow : Type 0
ForeignRow = (SentRow × Option SignedMessage) × Option ExecutedMessage

abbrev sent_rows : Store → List SentRow
sent_rows s =
    join
      (λ (r : Located SentMessage) (m : Message).
        (row_of r).bridge_id == m.bridge_id && m.msg_hash == (row_of r).msg_hash)
      (located (λ (sm : SentMessage). sm.log_id) s s.sent_messages) s.messages

abbrev signed_rows : Store → List (SentRow × Option SignedMessage)
signed_rows s =
    left_join
      (λ (r : SentRow) (sig : SignedMessage).
        sig.bridge_id == r.1.bridge_id && r.1.msg_hash == sig.msg_hash)
      (sent_rows s) s.signed_messages

abbrev home_rows : Store → List HomeRow
home_rows s =
    left_join
      (λ (r : (SentRow × Option SignedMessage) × Option CollectedMessage) (em : ExecutedMessage).
        r.0.0.1.bridge_id == em.bridge_id && em.message_id == r.0.0.1.message_id)
      (left_join
        (λ (r : SentRow × Option SignedMessage) (cm : CollectedMessage).
          r.0.1.bridge_id == cm.bridge_id && cm.msg_hash == r.0.1.msg_hash)
        (signed_rows s) s.collected_messages)
      s.executed_messages

abbrev foreign_rows : Store → List ForeignRow
foreign_rows s =
    left_join
      (λ (r : SentRow × Option SignedMessage) (em : ExecutedMessage).
        r.0.1.bridge_id == em.bridge_id && em.message_id == r.0.1.message_id)
      (signed_rows s) s.executed_messages

abbrev pub block_of : {A : Type 0} → Located A → ℕ
block_of ((row, l), bt) = l.block_number

-- GROUP BY sm.log_id, l.id, ts.timestamp
abbrev pub same_sent : Located SentMessage → Located SentMessage → Bool
same_sent ((sm, l), bt) ((sm', l'), bt') =
    sm.log_id == sm'.log_id && l.id == l'.id && bt.timestamp == bt'.timestamp

abbrev stuck_message : Located SentMessage → ℕ → StuckMessage
stuck_message r count = record { place = place_of r; msg_hash = (row_of r).msg_hash; count = count }

module _ (params : AlertJobParams) where
  abbrev whitelisted : Address → Bool
  whitelisted a = any (λ b. b == a) params.home_whitelisted_senders

  abbrev stuck_at_home : HomeRow → Bool
  stuck_at_home r =
      let m = r.0.0.0.1 in
      is_home_to_foreign m.direction
      && (is_none r.0.1 || (is_none r.1 && m.data_type == 0 && whitelisted m.sender))
      && (row_of r.0.0.0.0).bridge_id == params.bridge
      && leb params.home_start_block_number (block_of r.0.0.0.0)

  abbrev stuck_at_foreign : ForeignRow → Bool
  stuck_at_foreign r =
      let m = r.0.0.1 in
      not (is_home_to_foreign m.direction)
      && is_none r.1
      && (row_of r.0.0.0).bridge_id == params.bridge
      && leb params.foreign_start_block_number (block_of r.0.0.0)

  abbrev stuck_home_messages : Store → List StuckMessage
  stuck_home_messages s =
      map
        (λ (g : HomeRow × List HomeRow).
          stuck_message g.0.0.0.0.0 (count_some (λ (r : HomeRow). r.0.0.1) g.1))
        (group_by (λ (a b : HomeRow). same_sent a.0.0.0.0 b.0.0.0.0)
          (filter_by stuck_at_home (home_rows s)))

  abbrev stuck_foreign_messages : Store → List StuckMessage
  stuck_foreign_messages s =
      map
        (λ (g : ForeignRow × List ForeignRow).
          stuck_message g.0.0.0.0 (count_some (λ (r : ForeignRow). r.0.1) g.1))
        (group_by (λ (a b : ForeignRow). same_sent a.0.0.0 b.0.0.0)
          (filter_by stuck_at_foreign (foreign_rows s)))

  unfoldable pub find_stuck_messages : Exec (List StuckMessage)
  find_stuck_messages =
      query λ s. ok (union_rows same_stuck [] (stuck_home_messages s ++ stuck_foreign_messages s))
