-- ===== src/Exec.antt =====
-- Code that calls the database and the nodes. What was written before an error stays written, so
-- the state comes back beside the error too. A panic is a third outcome: nothing recovers it.
pub mod Retryable
pub mod Calls
pub mod Retry
pub mod ReadOnly
pub mod Sequence
use tokenbridge_monitor.Base.{Bool, true, false, Option, none, some, List, [], ◌∷◌}
use tokenbridge_monitor.Repo.Store.{Store}

pub data Error : Type 0 where
  wrong_argument_type unavailable not_found constraint : Error
  invalid_event invalid_postgres_result node_is_not_synced invalid_logs_query : Error
  null_value unknown_alert unknown_chain beyond_processed missing_chain_id
        missing_block_query_params missing_msg_hash_and_message_id :
      Error

pub data Result {ℓ} (A : Type ℓ) : Type ℓ where
  ok : A → Result A
  err : Error → Result A
  panic : Result A

-- `faults` says of the coming calls which ones fail, `true` for a failure; past its end all calls
-- are answered. Where the context is cancelled every call fails.
pub record Session : Type 0 where
  pub store : Store
  pub faults : List Bool
  pub cancelled : Bool

abbrev pub Exec : Type 0 → Type 0
Exec A = Session → Result A × Session

-- `ok` returns, `err` is an error returned early, `panic` ends the process.
unfoldable pub lift : {A : Type 0} → Result A → Exec A
lift r s = (r, s)

module _ {A B : Type 0} where
  unfoldable pub continue : Result A → (A → Exec B) → Exec B
  continue (ok a) f s = f a s
  continue (err e) f s = (err e, s)
  continue panic f s = (panic, s)

  infixl 10 ◌>>=◌ ◌>>◌
  unfoldable pub ◌>>=◌ : Exec A → (A → Exec B) → Exec B
  unfolding continue lift
  ◌>>=◌ m f s = let (r, s') = m s in continue r f s'

  abbrev pub ◌>>◌ : Exec A → Exec B → Exec B
  m >> n = m >>= λ _. n

-- One call of a service: it fails, with no effect, or goes on.
abbrev attempt : List Bool → Session → Result (Unit {0}) × Session
attempt [] s = (ok tt, s)
attempt (false ∷ fs) s = (ok tt, record s { faults = fs })
attempt (true ∷ fs) s = (err unavailable, record s { faults = fs })

unfoldable pub call : Exec (Unit {0})
call s = elim s.cancelled [ true ↦ (err unavailable, s) | false ↦ attempt s.faults s ]

abbrev pub or_not_found : {A : Type 0} → Option A → Result A
or_not_found none = err not_found
or_not_found (some a) = ok a

-- A query: `none` of the statement on the store is the error that the database then reports.
unfoldable pub query : {A : Type 0} → (Store → Result A) → Exec A
unfolding call
query f s = let (r, s') = call s in continue r (λ _ t. (f t.store, t)) s'

abbrev pub commit : Option Store → Session → Result (Unit {0}) × Session
commit none s = (err constraint, s)
commit (some t) s = (ok tt, record s { store = t })

-- A statement that writes: `none` where a constraint of the schema forbids it.
unfoldable pub statement : (Store → Option Store) → Exec (Unit {0})
unfolding call
statement f s = let (r, s') = call s in continue r (λ _ t. commit (f t.store) t) s'
