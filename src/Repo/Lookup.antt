-- ===== src/Repo/Lookup.antt =====
-- What a query by key finds after an upsert.
use mathlib.Core.Option
use tokenbridge_monitor.Base.{
  ◌≡◌, ap, inl, inr, ◌⊎◌, Bool, true, false, some, List, [], ◌∷◌, ◌++◌, arith, any, find_by,
  Bool-cases,
}
use tokenbridge_monitor.Repo.Table.{update_rows, upsert_row}

module _ {ℓ} {R : Type ℓ} (same : R → Bool) where
  find-append_new :
      (rows : List R) (row : R)
      → any same rows ≡ false
      → same row ≡ true
      → find_by same (rows ++ row ∷ []) ≡ some row
  find-append_new [] row h self = rw self
  find-append_new (r ∷ rows) row h self = ground (arith, find-append_new rows row)

  module _ (set : R → R) (keeps : (r : R) → same (set r) ≡ same r) where
    find-update_rows :
        (rows : List R)
        → any same rows ≡ true
        → (r : R) × (find_by same (update_rows same set rows) ≡ some (set r))
    find-update_rows [] h = absurd (cc h)
    find-update_rows (r ∷ rows) h = elim (Bool-cases (same r)) [
      | inl hit ↦ (r, rw (hit, keeps r, hit))
      | inr miss ↦ let (q, e) = find-update_rows rows (ground arith) in (q, rw (miss, miss) e)
    ]

    -- The row with the key is the one that was written, or the old one with the columns set.
    pub find-upsert_row :
        (allowed : Bool) (row : R) (rows rows' : List R)
        → same row ≡ true
        → upsert_row same set allowed row rows ≡ some rows'
        → (find_by same rows' ≡ some row) ⊎ ((r : R) × (find_by same rows' ≡ some (set r)))
    unfolding upsert_row
    find-upsert_row allowed row rows rows' self h = elim (Bool-cases (any same rows)) [
      | inl old ↦
          let (r, e) = find-update_rows rows old in
          let written : update_rows same set rows ≡ rows' = ground arith in
          inr (r, rw (← written) e)
      | inr new ↦
          let written : rows ++ row ∷ [] ≡ rows' = ground arith in
          inl (rw (← written) (find-append_new rows row new self))
    ]

module _ {ℓ} {R : Type ℓ} (same : R → Bool) where
  any-find : (rows : List R) (v : R) → find_by same rows ≡ some v → any same rows ≡ true
  any-find [] v h = absurd (cc h)
  any-find (r ∷ rows) v h = elim (Bool-cases (same r)) [
    | inl hit ↦ rw hit
    | inr miss ↦ rw miss (any-find rows v (rw miss at h))
  ]

  module _ (set : R → R) (keeps : (r : R) → same (set r) ≡ same r) where
    find-update_found :
        (rows : List R) (v : R)
        → find_by same rows ≡ some v
        → find_by same (update_rows same set rows) ≡ some (set v)
    find-update_found [] v h = absurd (cc h)
    find-update_found (r ∷ rows) v h = elim (Bool-cases (same r)) [
      | inl hit ↦
          let it : some r ≡ some v = rw hit at h in rw (hit, keeps r, hit) (ap (Option.map set) it)
      | inr miss ↦ rw (miss, miss) (find-update_found rows v (rw miss at h))
    ]

    -- A row that is there has the columns set.
    pub find-upsert_found :
        (allowed : Bool) (row v : R) (rows rows' : List R)
        → find_by same rows ≡ some v
        → upsert_row same set allowed row rows ≡ some rows'
        → find_by same rows' ≡ some (set v)
    unfolding upsert_row
    find-upsert_found allowed row v rows rows' found h =
        let written : some (update_rows same set rows) ≡ some rows' =
          rw (any-find rows v found) at h in
        let e : update_rows same set rows ≡ rows' = cc written in
        rw (← e) (find-update_found rows v found)
