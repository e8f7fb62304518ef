-- ===== src/Exec/Calls.antt =====
-- Queries and writing statements as actions that may be repeated.
use tokenbridge_monitor.Base.{
  ◌≤◌, ◌≡◌, ◌⊎◌, refl, ap, inl, inr, Bool, true, false, Option, none, some, List, [], ◌∷◌, arith,
}
use tokenbridge_monitor.Repo.Store.{Store}
use tokenbridge_monitor.Repo.Extends.{Extends, Extends-refl}
use tokenbridge_monitor.Exec.{Result, ok, err, panic, Session, continue, commit, query, statement}
use tokenbridge_monitor.Exec.{unavailable}
use tokenbridge_monitor.Exec.Retryable.{Run, Retryable, failures}

abbrev session : Store → List Bool → Bool → Session
session t fs c = record { store = t; faults = fs; cancelled = c }

-- A query whose answer later insertions do not change.
abbrev pub IsStable : {A : Type 0} → (Store → Result A) → Type 0
IsStable {A} f = (s t : Store) (a : A) → f s ≡ ok a → Extends s t → f t ≡ ok a

module _ {A : Type 0} (f : Store → Result A) (stable : IsStable f) where
  answered :
      (t : Store) (fs fs' : List Bool) (r : Result A)
      → failures fs' ≤ failures fs
      → f t ≡ r
      → Run (query f) (session t fs false) r (session t fs' false)
  unfolding query continue
  answered t fs fs' (ok a) l e = record {
    extends = Extends-refl t;
    spends = l;
    keeps = refl;
    tells = (
      ap (λ r. (r, session t [] false)) e,
      λ u x. ap (λ r. (r, session u [] false)) (stable t u a e x),
    );
  }
  answered t fs fs' (err c) l e = record {
    extends = Extends-refl t;
    spends = l;
    keeps = refl;
    tells = (refl, inr (inr e));
  }
  answered t fs fs' panic l e = record {
    extends = Extends-refl t;
    spends = l;
    keeps = refl;
    tells = e;
  }

  query-Run :
      (t : Store) (fs : List Bool) (c : Bool)
      → Run (query f) (session t fs c) (query f (session t fs c)).0 (query f (session t fs c)).1
  unfolding query continue
  query-Run t fs true = record {
    extends = Extends-refl t;
    spends = omega arith;
    keeps = refl;
    tells = (refl, inr (inl refl));
  }
  query-Run t [] false = answered t [] [] (f t) (omega arith) refl
  query-Run t (false ∷ fs) false = answered t (false ∷ fs) fs (f t) (omega arith) refl
  query-Run t (true ∷ fs) false = record {
    extends = Extends-refl t;
    spends = omega arith;
    keeps = refl;
    tells = (refl, inl (omega arith));
  }

  pub Retryable-query : Retryable (query f)
  Retryable-query = record { at = λ s. query-Run s.store s.faults s.cancelled }

-- A statement that only adds rows, and does nothing where it has been done before.
pub record IsInsertion (f : Store → Option Store) : Type 0 where
  pub grows : (s t : Store) → f s ≡ some t → Extends s t
  pub settles : (s t u : Store) → f s ≡ some t → Extends t u → f u ≡ some u

module _ (f : Store → Option Store) (ins : IsInsertion f) where
  done :
      (t : Store) (fs fs' : List Bool) (o : Option Store)
      → failures fs' ≤ failures fs
      → f t ≡ o
      → Run
          (statement f)
          (session t fs false)
          (commit o (session t fs' false)).0
          (commit o (session t fs' false)).1
  unfolding statement continue
  done t fs fs' (some u) l e = record {
    extends = ins.grows t u e;
    spends = l;
    keeps = refl;
    tells = (
      ap (λ o. commit o (session t [] false)) e,
      λ v x. ap (λ o. commit o (session v [] false)) (ins.settles t u v e x),
    );
  }
  done t fs fs' none l e = record {
    extends = Extends-refl t;
    spends = l;
    keeps = refl;
    tells = (refl, inr (inr (ap (λ o. (commit o (session t [] false)).0) e)));
  }

  statement-Run :
      (t : Store) (fs : List Bool) (c : Bool)
      → Run
          (statement f)
          (session t fs c)
          (statement f (session t fs c)).0
          (statement f (session t fs c)).1
  unfolding statement continue
  statement-Run t fs true = record {
    extends = Extends-refl t;
    spends = omega arith;
    keeps = refl;
    tells = (refl, inr (inl refl));
  }
  statement-Run t [] false = done t [] [] (f t) (omega arith) refl
  statement-Run t (false ∷ fs) false = done t (false ∷ fs) fs (f t) (omega arith) refl
  statement-Run t (true ∷ fs) false = record {
    extends = Extends-refl t;
    spends = omega arith;
    keeps = refl;
    tells = (refl, inl (omega arith));
  }

  pub Retryable-statement : Retryable (statement f)
  Retryable-statement = record { at = λ s. statement-Run s.store s.faults s.cancelled }

pub statement_cancelled :
    (f : Store → Option Store) (s : Session)
    → s.cancelled ≡ true
    → statement f s ≡ (err unavailable, s)
unfolding statement continue
statement_cancelled f s h = ground arith

commit_done : (o : Option Store) (s s' : Session) → commit o s ≡ (ok tt, s') → o ≡ some s'.store
commit_done none s s' h = absurd (cc (ap (λ p. p.0) h))
commit_done (some t) s s' h = ap (λ p. some p.1.store) h

statement_done_at :
    (f : Store → Option Store) (t : Store) (fs : List Bool) (c : Bool) (s' : Session)
    → statement f (session t fs c) ≡ (ok tt, s')
    → f t ≡ some s'.store
unfolding statement continue
statement_done_at f t fs true s' h = absurd (cc (ap (λ p. p.0) h))
statement_done_at f t [] false s' h = commit_done (f t) _ s' h
statement_done_at f t (false ∷ fs) false s' h = commit_done (f t) _ s' h
statement_done_at f t (true ∷ fs) false s' h = absurd (cc (ap (λ p. p.0) h))

-- A statement that succeeded has written what it computes from the store.
pub statement_done :
    (f : Store → Option Store) (s s' : Session)
    → statement f s ≡ (ok tt, s')
    → f s.store ≡ some s'.store
statement_done f s s' h = statement_done_at f s.store s.faults s.cancelled s' h

module _ {A : Type 0} (f : Store → Result A) where
  query_cases_at :
      (t : Store) (fs : List Bool) (c : Bool)
      → ((query f (session t fs c)).0 ≡ err unavailable) ⊎ ((query f (session t fs c)).0 ≡ f t)
  unfolding query continue
  query_cases_at t fs true = inl refl
  query_cases_at t [] false = inr refl
  query_cases_at t (false ∷ fs) false = inr refl
  query_cases_at t (true ∷ fs) false = inl refl

  -- A query is not answered, or answers what the store says.
  pub query_cases : (s : Session) → ((query f s).0 ≡ err unavailable) ⊎ ((query f s).0 ≡ f s.store)
  query_cases s = query_cases_at s.store s.faults s.cancelled

  query-store_at : (t : Store) (fs : List Bool) (c : Bool) → (query f (session t fs c)).1.store ≡ t
  unfolding query continue
  query-store_at t fs true = refl
  query-store_at t [] false = refl
  query-store_at t (false ∷ fs) false = refl
  query-store_at t (true ∷ fs) false = refl

  pub query-store : (s : Session) → (query f s).1.store ≡ s.store
  query-store s = query-store_at s.store s.faults s.cancelled
