-- ===== src/Repo/Table.antt =====
-- Tables with a unique key, as the queries of repository/postgres/*.go use them:
-- `INSERT … ON CONFLICT (key) DO UPDATE SET …` by the documented meaning of these clauses.
use tokenbridge_monitor.Base.{
  ◌≡◌, sym, inl, inr, ◌∙◌, ap, Bool, true, Option, none, some, List, [], ◌∷◌, ◌++◌, arith,
  if◌then◌else◌, any, Bool-cases,
}
use mathlib.Core.List.{append_assoc, append-nil}

module _ {ℓ} {R : Type ℓ} where
  -- The conflict clause sets only `updated_at`. `allowed`: no other constraint forbids the row.
  unfoldable pub insert_row : (R → Bool) → Bool → R → List R → Option (List R)
  insert_row same allowed row rows =
      if any same rows then some rows else if allowed then some (rows ++ row ∷ []) else none

  abbrev pub update_rows : (R → Bool) → (R → R) → List R → List R
  update_rows same set [] = []
  update_rows same set (r ∷ rows) = (if same r then set r else r) ∷ update_rows same set rows

  -- The conflict clause sets columns of the row that is there.
  unfoldable pub upsert_row : (R → Bool) → (R → R) → Bool → R → List R → Option (List R)
  upsert_row same set allowed row rows =
      if any same rows
      then some (update_rows same set rows)
      else if allowed
      then some (rows ++ row ∷ [])
      else none

  -- Rows are only added.
  abbrev pub Grows : List R → List R → Type ℓ
  Grows rows rows' = (more : List R) × (rows' ≡ rows ++ more)

module _ {ℓ} {R : Type ℓ} where
  pub Grows-refl : (rows : List R) → Grows rows rows
  Grows-refl rows = ([], sym (append-nil rows))

  pub Grows-trans : (a b c : List R) → Grows a b → Grows b c → Grows a c
  Grows-trans a b c (xs, e) (ys, f) = (xs ++ ys, f ∙ ap (λ r. r ++ ys) e ∙ append_assoc a xs ys)

  any-append_right : (p : R → Bool) (xs ys : List R) → any p ys ≡ true → any p (xs ++ ys) ≡ true
  any-append_right p [] ys h = h
  any-append_right p (x ∷ xs) ys h = ground (arith, any-append_right p xs ys h)

  any-append_left : (p : R → Bool) (xs ys : List R) → any p xs ≡ true → any p (xs ++ ys) ≡ true
  any-append_left p [] ys h = cc
  any-append_left p (x ∷ xs) ys h = ground (arith, any-append_left p xs ys)

  any-Grows :
      (p : R → Bool) (rows rows' : List R)
      → Grows rows rows'
      → any p rows ≡ true
      → any p rows' ≡ true
  any-Grows p rows rows' (more, e) h = rw e (any-append_left p rows more h)

  module _ (same : R → Bool) (allowed : Bool) (row : R) where
    -- The table grows by the insertion.
    pub insert_row-Grows :
        (rows rows' : List R) → insert_row same allowed row rows ≡ some rows' → Grows rows rows'
    unfolding insert_row
    insert_row-Grows rows rows' h = elim (Bool-cases (any same rows)) [
      | inl old ↦ ([], ground (arith, append-nil rows))
      | inr new ↦ (row ∷ [], ground arith)
    ]

    -- A row with the key is there afterwards.
    pub any-insert_row :
        (rows rows' : List R)
        → same row ≡ true
        → insert_row same allowed row rows ≡ some rows'
        → any same rows' ≡ true
    unfolding insert_row
    any-insert_row rows rows' self h = ground (arith, any-append_right same rows (row ∷ []))

    -- Where the key is there, the insertion changes nothing, whatever other constraints say.
    pub insert_row-present :
        (rows : List R) → any same rows ≡ true → insert_row same allowed row rows ≡ some rows
    unfolding insert_row
    insert_row-present rows h = rw h

  -- Once it has been done, an insertion does nothing on any table that has grown since.
  pub insert_row-settled :
      (same : R → Bool) (allowed later : Bool) (row : R) (rows rows' final : List R)
      → same row ≡ true
      → insert_row same allowed row rows ≡ some rows'
      → Grows rows' final
      → insert_row same later row final ≡ some final
  insert_row-settled same allowed later row rows rows' final self done grown =
      insert_row-present same later row final
        (any-Grows same rows' final grown (any-insert_row same allowed row rows rows' self done))
