-- ===== src/Exec/Retry.antt =====
-- The loops of monitor/contract_monitor.go that repeat an action until it succeeds or the context is
-- cancelled while they wait (utils/context.go, ContextSleep).
use tokenbridge_monitor.Base.{
  ℕ, zero, suc, ◌≤◌, ◌<◌, ◌≡◌, refl, subst, Bool, sym, ap, ◌∙◌, inl, inr, true, false, arith,
}
use tokenbridge_monitor.Repo.Store.{Store}
use tokenbridge_monitor.Exec.{Result, ok, err, panic, Session, Exec}
use tokenbridge_monitor.Exec.Retryable.{Run, Retryable, clean, failures}

pub data Ended (A : Type 0) : Type 0 where
  finished : A → Ended A
  interrupted : Ended A
  crashed : Ended A

abbrev resolve :
    {A : Type 0} → Result A → Session → (Session → Ended A × Session) → Ended A × Session
resolve (ok a) s again = (finished a, s)
resolve (err e) s again = again s
resolve panic s again = (crashed, s)

abbrev interrupt : {A : Type 0} → Session → Ended A × Session
interrupt s = (interrupted, record s { cancelled = true })

-- A wait: the context interrupts it at once where it is cancelled.
abbrev wait_when : {A : Type 0} → Bool → (Session → Ended A × Session) → Session → Ended A × Session
wait_when true again s = interrupt s
wait_when false again s = again s

abbrev wait : {A : Type 0} → (Session → Ended A × Session) → Session → Ended A × Session
wait again s = wait_when s.cancelled again s

-- The first wait that the context interrupts is the one after `waits` others.
unfoldable pub retry : {A : Type 0} → ℕ → Exec A → Session → Ended A × Session
retry zero m s = let (r, s') = m s in resolve r s' interrupt
retry (suc waits) m s = let (r, s') = m s in resolve r s' (wait (retry waits m))

module _ {A : Type 0} (m : Exec A) (km : Retryable m) (a : A) (t : Store) where
  abbrev Finishes : Ended A × Session → Type 0
  Finishes p = (p.0 ≡ finished a) × (p.1.store ≡ t) × (p.1.cancelled ≡ false)

  resolve-Finishes :
      (s s' : Session) (r : Result A) (again : Session → Ended A × Session)
      → Run m s r s'
      → m (clean s.store) ≡ (ok a, clean t)
      → s.cancelled ≡ false
      → (failures s'.faults < failures s.faults
          → m (clean s'.store) ≡ (ok a, clean t)
          → s'.cancelled ≡ false
          → Finishes (again s'))
      → Finishes (resolve r s' again)
  resolve-Finishes s s' (ok b) again run e live next =
      let same : (ok b, clean s'.store) ≡ (ok a, clean t) = sym run.tells.0 ∙ e in
      (cc (ap (λ p. p.0) same), ap (λ p. p.1.store) same, run.keeps ∙ live)
  resolve-Finishes s s' (err c) again run e live next = elim run.tells.1 [
    | inl less ↦ next less (run.tells.0 ∙ e) (run.keeps ∙ live)
    | inr (inl over) ↦ absurd (cc over)
    | inr (inr fails) ↦ absurd (cc (fails, ap (λ p. p.0) e))
  ]
  resolve-Finishes s s' panic again run e live next = absurd (cc (run.tells, ap (λ p. p.0) e))

  -- The action is repeated until it succeeds, if the context lives through one wait for each
  -- failing call, and what it then has written is what one run without failures writes.
  pub retry-Finishes :
      (waits : ℕ) (s : Session)
      → m (clean s.store) ≡ (ok a, clean t)
      → s.cancelled ≡ false
      → failures s.faults ≤ waits
      → Finishes (retry waits m s)
  unfolding retry
  retry-Finishes zero s e live l =
      resolve-Finishes s (m s).1 (m s).0 interrupt (km.at s) e live
        λ less e' live'. absurd (omega arith)
  retry-Finishes (suc waits) s e live l =
      resolve-Finishes s (m s).1 (m s).0 (wait (retry waits m)) (km.at s) e live λ less e' live'.
        subst Finishes (ap (λ c. wait_when c (retry waits m) (m s).1) (sym live'))
          (retry-Finishes waits (m s).1 e' live' (omega arith))

-- An interrupted loop leaves a cancelled context.
abbrev pub Stopped : {A : Type 0} → Ended A × Session → Type 0
Stopped p = p.0 ≡ interrupted → p.1.cancelled ≡ true

wait-Stopped :
    {A : Type 0} (b : Bool) (again : Session → Ended A × Session) (s : Session)
    → ((s : Session) → Stopped (again s))
    → Stopped (wait_when b again s)
wait-Stopped true again s h e = refl
wait-Stopped false again s h e = h s e

resolve-Stopped :
    {A : Type 0} (r : Result A) (s : Session) (again : Session → Ended A × Session)
    → ((s : Session) → Stopped (again s))
    → Stopped (resolve r s again)
resolve-Stopped (ok a) s again h e = cc e
resolve-Stopped (err c) s again h e = h s e
resolve-Stopped panic s again h e = cc e

pub retry-Stopped : {A : Type 0} (waits : ℕ) (m : Exec A) (s : Session) → Stopped (retry waits m s)
unfolding retry
retry-Stopped zero m s = resolve-Stopped (m s).0 (m s).1 interrupt (λ s e. refl)
retry-Stopped (suc waits) m s =
    resolve-Stopped (m s).0 (m s).1 _
      λ s'. wait-Stopped s'.cancelled (retry waits m) s' (retry-Stopped waits m)

-- What holds of every success of the action holds of what the loop ends with.
module _ {A : Type 0} (Q : A → Type 0) where
  abbrev pub EndsIn : Ended A → Type 0
  EndsIn (finished a) = Q a
  EndsIn interrupted = Unit
  EndsIn crashed = Unit

  abbrev pub SucceedsIn : Result A → Type 0
  SucceedsIn (ok a) = Q a
  SucceedsIn (err e) = Unit
  SucceedsIn panic = Unit

  wait-EndsIn :
      (b : Bool) (again : Session → Ended A × Session) (s : Session)
      → ((s : Session) → EndsIn (again s).0)
      → EndsIn (wait_when b again s).0
  wait-EndsIn true again s h = tt
  wait-EndsIn false again s h = h s

  resolve-EndsIn :
      (r : Result A) (s : Session) (again : Session → Ended A × Session)
      → SucceedsIn r
      → ((s : Session) → EndsIn (again s).0)
      → EndsIn (resolve r s again).0
  resolve-EndsIn (ok a) s again q h = q
  resolve-EndsIn (err e) s again q h = h s
  resolve-EndsIn panic s again q h = tt

  pub retry-EndsIn :
      (waits : ℕ) (m : Exec A) (s : Session)
      → ((s : Session) → SucceedsIn (m s).0)
      → EndsIn (retry waits m s).0
  unfolding retry
  retry-EndsIn zero m s h = resolve-EndsIn (m s).0 (m s).1 interrupt (h s) (λ s'. tt)
  retry-EndsIn (suc waits) m s h =
      resolve-EndsIn (m s).0 (m s).1 _ (h s)
        λ s'. wait-EndsIn s'.cancelled (retry waits m) s' (λ t. retry-EndsIn waits m t h)
