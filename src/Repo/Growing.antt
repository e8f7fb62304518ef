-- ===== src/Repo/Growing.antt =====
-- A table that only grows, and the insertion into it: it may be repeated at any later time.
use tokenbridge_monitor.Base.{◌≡◌, refl, Bool, true, Option, none, some, List, ap, ◌∙◌, sym, subst}
use tokenbridge_monitor.Repo.Store.{Store}
use tokenbridge_monitor.Repo.Table.{Grows, insert_row, insert_row-Grows, insert_row-settled}
use tokenbridge_monitor.Repo.Extends.{Extends}
use tokenbridge_monitor.Exec.Calls.{IsInsertion}

pub record TableOf (R : Type 0) : Type 0 where
  pub rows : Store → List R
  pub with_rows : Store → List R → Store
  pub rows-with_rows : (s : Store) (rs : List R) → rows (with_rows s rs) ≡ rs
  pub with_rows-rows : (s : Store) → with_rows s (rows s) ≡ s
  pub with_rows-Extends : (s : Store) (rs : List R) → Grows (rows s) rs → Extends s (with_rows s rs)
  pub rows-Grows : (s t : Store) → Extends s t → Grows (rows s) (rows t)

abbrev pub replace : {R : Type 0} → TableOf R → Store → Option (List R) → Option Store
replace table s none = none
replace table s (some rs) = some (table.with_rows s rs)

-- `INSERT … ON CONFLICT (key) DO UPDATE SET updated_at = NOW()`. `same` tells the rows with the key
-- of `row`, `allowed` is what the other constraints of the schema say.
unfoldable pub insert_into :
    {R : Type 0} → TableOf R → (R → Bool) → (Store → Bool) → R → Store → Option Store
insert_into table same allowed row s =
    replace table s (insert_row same (allowed s) row (table.rows s))

module _ {R : Type 0} (table : TableOf R) (same : R → Bool) (allowed : Store → Bool) (row : R) where
  replace_grows :
      (s t : Store) (o : Option (List R))
      → insert_row same (allowed s) row (table.rows s) ≡ o
      → replace table s o ≡ some t
      → Extends s t × ((rs : List R) × (o ≡ some rs) × (table.rows t ≡ rs))
  replace_grows s t none e h = absurd (cc h)
  replace_grows s t (some rs) e h =
      let same_store : table.with_rows s rs ≡ t = cc h in
      (
        subst (Extends s) same_store
            (table.with_rows-Extends s rs (insert_row-Grows same (allowed s) row _ rs e)),
        (rs, refl, ap table.rows (sym same_store) ∙ table.rows-with_rows s rs),
      )

  pub insert_into-IsInsertion : same row ≡ true → IsInsertion (insert_into table same allowed row)
  unfolding insert_into
  insert_into-IsInsertion self = record {
    grows = λ s t h. (replace_grows s t _ refl h).0;
    settles = λ s t u h x.
        let (rs, e, r) = (replace_grows s t _ refl h).1 in
        let grown = subst (λ q. Grows q (table.rows u)) r (table.rows-Grows t u x) in
        let settled =
          insert_row-settled same (allowed s) (allowed u) row (table.rows s) rs (table.rows u) self
            e grown in
        ap (replace table u) settled ∙ ap (λ (v : Store). some v) (table.with_rows-rows u);
  }
