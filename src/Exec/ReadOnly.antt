-- ===== src/Exec/ReadOnly.antt =====
-- Actions that leave the database as it is.
use tokenbridge_monitor.Base.{◌≡◌, refl, ◌∙◌}
use tokenbridge_monitor.Repo.Store.{Store}
use tokenbridge_monitor.Exec.{Result, ok, err, panic, Session, Exec, lift, continue, query, ◌>>=◌}
use tokenbridge_monitor.Exec.Calls.{query-store}

pub record ReadOnly {A : Type 0} (m : Exec A) : Type 0 where
  pub at : (s : Session) → (m s).1.store ≡ s.store

pub ReadOnly-lift : {A : Type 0} (r : Result A) → ReadOnly (lift r)
unfolding lift
ReadOnly-lift r = record { at = λ s. refl }

pub ReadOnly-query : {A : Type 0} (f : Store → Result A) → ReadOnly (query f)
ReadOnly-query f = record { at = query-store f }

module _ {A B : Type 0} (f : A → Exec B) (kf : (a : A) → ReadOnly (f a)) where
  continue-store : (r : Result A) (s : Session) → (continue r f s).1.store ≡ s.store
  unfolding continue
  continue-store (ok a) s = (kf a).at s
  continue-store (err e) s = refl
  continue-store panic s = refl

pub ReadOnly-bind :
    {A B : Type 0} (m : Exec A) (f : A → Exec B)
    → ReadOnly m
    → ((a : A) → ReadOnly (f a))
    → ReadOnly (m >>= f)
unfolding ◌>>=◌
ReadOnly-bind m f km kf = record { at = λ s. continue-store f kf (m s).0 (m s).1 ∙ km.at s }

pub ruleset read_only_rules = (ReadOnly-lift, ReadOnly-query, ReadOnly-bind)
