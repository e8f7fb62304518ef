-- ===== src/Monitor/Alerts/Activity.antt =====
-- db_alerts_provider.go: when each validator was last active. One that has never signed counts from
-- the block in which it was added; without a time for it the row does not fit its variable.
use tokenbridge_monitor.Base.{
  ℕ, String, Bool, not, ◌&&◌, Option, none, some, List, [], ◌∷◌, map, filter_by, length, ltb, ◌==◌,
  nat_eq, string_eq, bytes_eq, if◌then◌else◌,
}
use tokenbridge_monitor.Entity.{Address, Log, BlockTimestamp, SignedMessage, BridgeValidator}
use tokenbridge_monitor.Repo.Store.{Store}
use tokenbridge_monitor.Repo.Join.{join, is_none}
use tokenbridge_monitor.Exec.{Result, ok, err, panic, Exec, query}
use tokenbridge_monitor.Monitor.Alerts.Tables.{AlertJobParams, Located, row_of, located, or_null}
use tokenbridge_monitor.Monitor.Alerts.Stuck.{group_by}

pub record LastValidatorActivity : Type 0 where
  pub chain_id : String
  pub address : Address
  pub last_active : ℕ

-- `max`, which is NULL of no values; a NULL among them does not count.
abbrev later : Option ℕ → Option ℕ → Option ℕ
later none o = o
later (some m) none = some m
later (some m) (some n) = some (if ltb m n then n else m)

abbrev pub maximum : List (Option ℕ) → Option ℕ
maximum [] = none
maximum (o ∷ os) = later o (maximum os)

abbrev coalesce : Option ℕ → Option ℕ → Option ℕ
coalesce (some n) o = some n
coalesce none o = o

abbrev time_of : {A : Type 0} → Located A → Option ℕ
time_of ((row, l), bt) = some bt.timestamp

-- The time of the last signature of the bridge by the signer.
abbrev last_signature : String → Store → Address → Option ℕ
last_signature bridge s signer = maximum (
    map (λ (r : Located SignedMessage). time_of r)
      (filter_by (λ (r : Located SignedMessage). (row_of r).signer == signer)
        (located (λ (sm : SignedMessage). sm.log_id) s
          (filter_by (λ sm. sm.bridge_id == bridge) s.signed_messages))))

-- The time of the block of the log with the id.
abbrev added_at : Store → ℕ → Option ℕ
added_at s log_id = maximum (
    map (λ (r : Log × BlockTimestamp). some r.1.timestamp)
      (join (λ l bt. l.chain_id == bt.chain_id && l.block_number == bt.block_number)
        (filter_by (λ l. l.id == log_id) s.logs) s.block_timestamps))

abbrev activity_of : String → Store → BridgeValidator → Option ℕ
activity_of bridge s v = coalesce (last_signature bridge s v.address) (added_at s v.log_id)

-- `count(removed_log_id) < count(*)`
abbrev is_still_there : List BridgeValidator → Bool
is_still_there vs = ltb (length (filter_by (λ v. not (is_none v.removed_log_id)) vs)) (length vs)

-- Rows into records; the first NULL ends the reading.
abbrev add_row :
    LastValidatorActivity
    → Result (List LastValidatorActivity)
    → Result (List LastValidatorActivity)
add_row r (ok rows) = ok (r ∷ rows)
add_row r (err e) = err e
add_row r panic = panic

module _ (params : AlertJobParams) where
  abbrev read_row :
      Address → Result ℕ → Result (List LastValidatorActivity) → Result (List LastValidatorActivity)
  read_row a (ok t) rest =
      add_row (record { chain_id = params.home_chain_id; address = a; last_active = t }) rest
  read_row a (err e) rest = err e
  read_row a panic rest = panic

  abbrev pub read_rows :
      Store → List (BridgeValidator × List BridgeValidator) → Result (List LastValidatorActivity)
  read_rows s [] = ok []
  read_rows s ((v, vs) ∷ groups) =
      read_row v.address (or_null (maximum (map (activity_of params.bridge s) vs)))
        (read_rows s groups)

  abbrev pub validator_groups : Store → List (BridgeValidator × List BridgeValidator)
  validator_groups s =
      filter_by (λ (g : BridgeValidator × List BridgeValidator). is_still_there g.1)
        (group_by (λ (v w : BridgeValidator). v.address == w.address)
          (filter_by (λ v. v.bridge_id == params.bridge) s.bridge_validators))

  unfoldable pub find_last_validator_activity : Exec (List LastValidatorActivity)
  find_last_validator_activity = query λ s. read_rows s (validator_groups s)
