-- ===== src/Exec/Retryable.antt =====
-- Actions that may be repeated until they succeed: calls may fail in between, and what comes out is
-- what one run without failures gives. One rule for each way to build an action.
use tokenbridge_monitor.Base.{
  ℕ, suc, ◌≤◌, ◌<◌, ◌≡◌, refl, sym, ap, ◌∙◌, ◌⊎◌, inl, inr, Bool, true, false, List, [], ◌∷◌, arith,
  if◌then◌else◌,
}
use tokenbridge_monitor.Repo.Store.{Store}
use tokenbridge_monitor.Repo.Extends.{Extends, Extends-refl, Extends-trans}
use tokenbridge_monitor.Exec.{Error, Result, ok, err, panic, Session, Exec, lift, continue, ◌>>=◌}

-- A session in which every call is answered.
abbrev pub clean : Store → Session
clean t = record { store = t; faults = []; cancelled = false }

-- How many of the coming calls fail.
abbrev pub failures : List Bool → ℕ
failures [] = 0
failures (true ∷ fs) = suc (failures fs)
failures (false ∷ fs) = failures fs

-- What a run that ended in `r` and `s'` says of the run without failures:
-- a success is the same there, and stays so on every store that has grown since;
-- an error took a failure away, or the context was cancelled, or is an error there too, and the
-- action may be taken up again from what it wrote;
-- a panic is no effect of a failure.
abbrev pub Tells : {A : Type 0} → Exec A → Session → Result A → Session → Type 0
Tells m s (ok a) s' =
    (m (clean s.store) ≡ (ok a, clean s'.store))
    × ((t : Store) → Extends s'.store t → m (clean t) ≡ (ok a, clean t))
Tells m s (err e) s' =
    (m (clean s'.store) ≡ m (clean s.store))
    × ((failures s'.faults < failures s.faults)
        ⊎ (s.cancelled ≡ true)
        ⊎ ((m (clean s.store)).0 ≡ err e))
Tells m s panic s' = (m (clean s.store)).0 ≡ panic

pub record Run {A : Type 0} (m : Exec A) (s : Session) (r : Result A) (s' : Session) : Type 0 where
  pub extends : Extends s.store s'.store
  pub spends : failures s'.faults ≤ failures s.faults
  pub keeps : s'.cancelled ≡ s.cancelled
  pub tells : Tells m s r s'

pub record Retryable {A : Type 0} (m : Exec A) : Type 0 where
  pub at : (s : Session) → Run m s (m s).0 (m s).1

lift-Run : {A : Type 0} (r : Result A) (s : Session) → Run (lift r) s r s
unfolding lift
lift-Run (ok a) s = record {
  extends = Extends-refl s.store;
  spends = omega arith;
  keeps = refl;
  tells = (refl, λ t _. refl);
}
lift-Run (err e) s = record {
  extends = Extends-refl s.store;
  spends = omega arith;
  keeps = refl;
  tells = (refl, inr (inr refl));
}
lift-Run panic s = record {
  extends = Extends-refl s.store;
  spends = omega arith;
  keeps = refl;
  tells = refl;
}

pub Retryable-lift : {A : Type 0} (r : Result A) → Retryable (lift r)
Retryable-lift r = record { at = λ s. unfold lift in lift-Run r s }

pub Retryable-if :
    {A : Type 0} (b : Bool) (m n : Exec A)
    → Retryable m
    → Retryable n
    → Retryable (if b then m else n)
Retryable-if true m n km kn = km
Retryable-if false m n km kn = kn

module _ {A B : Type 0} (m : Exec A) (f : A → Exec B) where
  bind-at : (s s' : Session) (r : Result A) → m s ≡ (r, s') → (m >>= f) s ≡ continue r f s'
  unfolding ◌>>=◌
  bind-at s s' r e = ap (λ p. continue p.0 f p.1) e

  bind_error : (s : Session) (e : Error) → (m s).0 ≡ err e → ((m >>= f) s).0 ≡ err e
  unfolding ◌>>=◌
  bind_error s e h = ap (λ r. (continue r f (m s).1).0) h

  bind_panic : (s : Session) → (m s).0 ≡ panic → ((m >>= f) s).0 ≡ panic
  unfolding ◌>>=◌
  bind_panic s h = ap (λ r. (continue r f (m s).1).0) h

  -- The second half of a bind, run from where the first half stopped.
  bind-Run-ok :
      (s s' : Session) (a : A) (r : Result B) (s'' : Session)
      → Run m s (ok a) s'
      → Run (f a) s' r s''
      → Run (m >>= f) s r s''
  unfolding continue
  bind-Run-ok s s' a (ok b) s'' rm rf = record {
    extends = Extends-trans _ _ _ rm.extends rf.extends;
    spends = omega (arith, rm.spends, rf.spends);
    keeps = rf.keeps ∙ rm.keeps;
    tells = (
      bind-at _ _ (ok a) rm.tells.0 ∙ rf.tells.0,
      λ t x. bind-at _ _ (ok a) (rm.tells.1 t (Extends-trans _ _ _ rf.extends x)) ∙ rf.tells.1 t x,
    );
  }
  bind-Run-ok s s' a (err e) s'' rm rf = record {
    extends = Extends-trans _ _ _ rm.extends rf.extends;
    spends = omega (arith, rm.spends, rf.spends);
    keeps = rf.keeps ∙ rm.keeps;
    tells = (
      bind-at _ _ (ok a) (rm.tells.1 s''.store rf.extends)
          ∙ rf.tells.0
          ∙ sym (bind-at _ _ (ok a) rm.tells.0),
      elim rf.tells.1 [
        | inl less ↦ inl (omega (arith, rm.spends, less))
        | inr (inl over) ↦ inr (inl (sym rm.keeps ∙ over))
        | inr (inr same) ↦ inr (inr (ap (λ p. p.0) (bind-at _ _ (ok a) rm.tells.0) ∙ same))
      ],
    );
  }
  bind-Run-ok s s' a panic s'' rm rf = record {
    extends = Extends-trans _ _ _ rm.extends rf.extends;
    spends = omega (arith, rm.spends, rf.spends);
    keeps = rf.keeps ∙ rm.keeps;
    tells = ap (λ p. p.0) (bind-at _ _ (ok a) rm.tells.0) ∙ rf.tells;
  }

  bind-Run :
      (s s' : Session) (r : Result A)
      → Run m s r s'
      → ((a : A) → Retryable (f a))
      → Run (m >>= f) s (continue r f s').0 (continue r f s').1
  unfolding continue
  bind-Run s s' (ok a) rm kf = bind-Run-ok s s' a (f a s').0 (f a s').1 rm ((kf a).at s')
  bind-Run s s' (err e) rm kf = record {
    extends = rm.extends;
    spends = rm.spends;
    keeps = rm.keeps;
    tells = (
      unfold ◌>>=◌ in ap (λ p. continue p.0 f p.1) rm.tells.0,
      elim rm.tells.1 [
        | inl less ↦ inl less
        | inr (inl over) ↦ inr (inl over)
        | inr (inr same) ↦ inr (inr (bind_error _ e same))
      ],
    );
  }
  bind-Run s s' panic rm kf = record {
    extends = rm.extends;
    spends = rm.spends;
    keeps = rm.keeps;
    tells = bind_panic _ rm.tells;
  }

  pub Retryable-bind : Retryable m → ((a : A) → Retryable (f a)) → Retryable (m >>= f)
  Retryable-bind km kf = record {
    at = λ s. unfold ◌>>=◌ in bind-Run s (m s).1 (m s).0 (km.at s) kf;
  }
