-- ===== src/Exec/Sequence.antt =====
-- What a sequence of actions that succeeded says of its parts.
use tokenbridge_monitor.Base.{◌≡◌, refl, ap, sym, Option, none, some}
use tokenbridge_monitor.Repo.Store.{Store}
use tokenbridge_monitor.Exec.{
  Result, ok, err, panic, Session, Exec, or_not_found, query, continue, lift, ◌>>=◌,
}
use tokenbridge_monitor.Exec.Retryable.{clean}

module _ {A B : Type 0} (m : Exec A) (f : A → Exec B) where
  continue-ok :
      (r : Result A) (s : Session) (b : B) (s' : Session)
      → continue r f s ≡ (ok b, s')
      → (a : A) × (r ≡ ok a) × (f a s ≡ (ok b, s'))
  unfolding continue
  continue-ok (ok a) s b s' h = (a, refl, h)
  continue-ok (err e) s b s' h = absurd (cc (ap (λ p. p.0) h))
  continue-ok panic s b s' h = absurd (cc (ap (λ p. p.0) h))

  -- Where a sequence succeeds, both of its parts do.
  pub bind-ok :
      (s : Session) (b : B) (s' : Session)
      → (m >>= f) s ≡ (ok b, s')
      → (a : A) × (t : Session) × (m s ≡ (ok a, t)) × (f a t ≡ (ok b, s'))
  unfolding ◌>>=◌
  bind-ok s b s' h =
      let (a, e, g) = continue-ok (m s).0 (m s).1 b s' h in
      (a, (m s).1, ap (λ r. (r, (m s).1)) e, g)

pub lift-ok : {A : Type 0} (a b : A) (s s' : Session) → lift (ok a) s ≡ (ok b, s') → a ≡ b
unfolding lift
lift-ok a b s s' h = cc (ap (λ p. p.0) h)

pub lift-same :
    {A : Type 0} (r : Result A) (b : Result A) (s s' : Session) → lift r s ≡ (b, s') → s' ≡ s
unfolding lift
lift-same r b s s' h = sym (ap (λ p. p.1) h)

-- The same of a query at the front, in a session in which every call is answered.
pub query-bind-ok :
    {A B : Type 0} (f : Store → Result A) (g : A → Exec B) (s : Store) (b : B) (s' : Session)
    → (query f >>= g) (clean s) ≡ (ok b, s')
    → (a : A) × (f s ≡ ok a) × (g a (clean s) ≡ (ok b, s'))
unfolding query continue ◌>>=◌
query-bind-ok f g s b s' h = continue-ok (query f) g (f s) (clean s) b s' h

pub or_not_found-ok : {A : Type 0} (o : Option A) (a : A) → or_not_found o ≡ ok a → o ≡ some a
or_not_found-ok none a h = absurd (cc h)
or_not_found-ok (some b) a h = cc h
