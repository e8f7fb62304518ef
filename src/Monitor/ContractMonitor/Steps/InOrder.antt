-- ===== src/Monitor/ContractMonitor/Steps/InOrder.antt =====
-- No step lets the processed block pass the fetched one, which the database would refuse.
use Prim.Native.Nat.{max}
use tokenbridge_monitor.Base.{
  ℕ, ◌≤◌, ◌≡◌, refl, ◌∙◌, subst, inl, inr, Bool, true, false, Option, none, some, List, ◌++◌, map,
  All, arith, ltb, Bool-cases,
}
use tokenbridge_monitor.Exec.{Result, ok, err, panic}
use tokenbridge_monitor.Monitor.Types.{BlocksRange, LogsBatch}
use tokenbridge_monitor.Monitor.ContractMonitor.{
  Contract, State, save_cursor, record_is_synced, record_head_block_number,
  record_processed_block_number,
}
use tokenbridge_monitor.Monitor.ContractMonitor.Fetcher.{schedule, fetch_round, safe_head}
use tokenbridge_monitor.Monitor.ContractMonitor.Batches.{resolve_record, record_loop}
use tokenbridge_monitor.Exec.Retry.{Ended, interrupted}

-- A batch is of a block that has been fetched.
abbrev pub BatchUpTo : ℕ → Option LogsBatch → Type 0
BatchUpTo n none = Unit
BatchUpTo n (some b) = b.block_number ≤ n

pub record InOrder (st : State) : Type 0 where
  pub cursor_in_order : st.logs_cursor.last_processed_block ≤ st.logs_cursor.last_fetched_block
  pub batches_fetched : All (BatchUpTo st.logs_cursor.last_fetched_block) st.logs_chan

-- What the cursor and the channel of batches are, nothing else.
pub record Keeps (st st' : State) : Type 0 where
  pub same_cursor : st'.logs_cursor ≡ st.logs_cursor
  pub same_chan : st'.logs_chan ≡ st.logs_chan

pub Keeps-InOrder : (st st' : State) → Keeps st st' → InOrder st → InOrder st'
Keeps-InOrder st st' k i = record {
  cursor_in_order = rw (k.same_cursor) i.cursor_in_order;
  batches_fetched = rw (k.same_cursor, k.same_chan) i.batches_fetched;
}

record_head-Keeps : (n : ℕ) (st : State) → Keeps st (record_head_block_number n st)
unfolding record_head_block_number record_is_synced
record_head-Keeps n st = elim (Bool-cases (ltb n st.head_block)) [
  | inl low ↦ record { same_cursor = rw low refl; same_chan = rw low refl }
  | inr high ↦ record { same_cursor = rw high refl; same_chan = rw high refl }
]

schedule-Keeps :
    (head next : ℕ) (st st' : State) (ranges : Option (List BlocksRange))
    → schedule head st ranges ≡ some (next, st')
    → Keeps st st'
schedule-Keeps head next st st' none h = absurd (cc h)
schedule-Keeps head next st st' (some ranges) h =
    let e : record st { blocks_range_chan = st.blocks_range_chan ++ map (λ r. some r) ranges }
        ≡ st' =
      cc h in
    subst (Keeps st) e (record { same_cursor = refl; same_chan = refl })

pub fetch_round-Keeps :
    (c : Contract) (answer : Option ℕ) (start next : ℕ) (st st' : State)
    → fetch_round c answer start st ≡ some (next, st')
    → Keeps st st'
unfolding fetch_round
fetch_round-Keeps c none start next st st' h =
    let e : st ≡ st' = cc h in subst (Keeps st) e (record { same_cursor = refl; same_chan = refl })
fetch_round-Keeps c (some answer) start next st st' h =
    let k = record_head-Keeps (safe_head c answer) st in
    let k' =
      schedule-Keeps (safe_head c answer) next (record_head_block_number (safe_head c answer) st)
        st' _ h in
    record { same_cursor = k'.same_cursor ∙ k.same_cursor; same_chan = k'.same_chan ∙ k.same_chan }

-- The processed block rises to `n` at most, and the rest stays.
pub record Raises (n : ℕ) (st st' : State) : Type 0 where
  pub bound : st'.logs_cursor.last_processed_block ≤ max st.logs_cursor.last_processed_block n
  pub same_fetched : st'.logs_cursor.last_fetched_block ≡ st.logs_cursor.last_fetched_block
  pub same_batches : st'.logs_chan ≡ st.logs_chan

pub Raises-refl : (n : ℕ) (st : State) → Raises n st st
Raises-refl n st = record { bound = omega arith; same_fetched = refl; same_batches = refl }

Raises-trans : (n : ℕ) (a b d : State) → Raises n a b → Raises n b d → Raises n a d
Raises-trans n a b d r s = record {
  bound = omega (arith, r.bound, s.bound);
  same_fetched = s.same_fetched ∙ r.same_fetched;
  same_batches = s.same_batches ∙ r.same_batches;
}

record_processed-Raises : (n : ℕ) (st : State) → Raises n st (record_processed_block_number n st).1
unfolding record_processed_block_number save_cursor record_is_synced
record_processed-Raises n st = elim (Bool-cases (ltb n st.logs_cursor.last_processed_block)) [
  | inl old ↦ rw old (Raises-refl n st)
  | inr new ↦ rw new (record { bound = omega arith; same_fetched = refl; same_batches = refl })
]

unless_cancelled-Raises :
    (n : ℕ) (base st : State) (again : State → Ended Unit × State)
    → Raises n base st
    → ((t : State) → Raises n base t → Raises n base (again t).1)
    → (b : Bool)
    → Raises n base
        (elim b as (λ _. Ended Unit × State) [ true ↦ (interrupted, st) | false ↦ again st ]).1
unless_cancelled-Raises n base st again h k true = h
unless_cancelled-Raises n base st again h k false = k st h

resolve_record-Raises :
    (n : ℕ) (base st : State) (r : Result (Unit {0})) (again : State → Ended Unit × State)
    → Raises n base st
    → ((t : State) → Raises n base t → Raises n base (again t).1)
    → Raises n base (resolve_record r st again).1
resolve_record-Raises n base st (ok _) again h k = h
resolve_record-Raises n base st panic again h k = h
resolve_record-Raises n base st (err e) again h k =
    unless_cancelled-Raises n base st again h k st.session.cancelled

pub record_loop-Raises :
    (waits n : ℕ) (base st : State) → Raises n base st → Raises n base (record_loop waits n st).1
unfolding record_loop
record_loop-Raises Prim.Native.Nat.zero n base st h =
    resolve_record-Raises n base _ _ _ (Raises-trans n base st _ h (record_processed-Raises n st))
      (λ t k. record {
        bound = k.bound;
        same_fetched = k.same_fetched;
        same_batches = k.same_batches;
      })
record_loop-Raises (Prim.Native.Nat.suc waits) n base st h =
    resolve_record-Raises n base _ _ _ (Raises-trans n base st _ h (record_processed-Raises n st))
      (λ t k. record_loop-Raises waits n base t k)
