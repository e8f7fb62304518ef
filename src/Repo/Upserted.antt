-- ===== src/Repo/Upserted.antt =====
-- The rows of a table after an upsert that no other constraint forbids.
use tokenbridge_monitor.Base.{
  ◌≡◌, refl, inl, inr, Bool, true, ◌||◌, some, List, [], ◌∷◌, ◌++◌, arith, any, All, All-append,
  Bool-cases, if◌then◌else◌,
}
use tokenbridge_monitor.Repo.Table.{update_rows, upsert_row}

module _ {ℓ} {R : Type ℓ} (same : R → Bool) (set : R → R) (row : R) where
  abbrev pub upserted : List R → List R
  upserted rows = if any same rows then update_rows same set rows else rows ++ row ∷ []

  pub upsert_row-upserted :
      (rows : List R) → upsert_row same set true row rows ≡ some (upserted rows)
  unfolding upsert_row
  upsert_row-upserted rows = elim (Bool-cases (any same rows)) [
    | inl old ↦ rw old refl
    | inr new ↦ rw new refl
  ]

  module _ {μ} (P : R → Type μ) (sets : (r : R) → same r ≡ true → P (set r)) where
    All-update_rows : (rows : List R) → All P rows → All P (update_rows same set rows)
    All-update_rows [] a = tt
    All-update_rows (r ∷ rows) a = elim (Bool-cases (same r)) [
      | inl hit ↦ rw hit (sets r hit, All-update_rows rows a.1)
      | inr miss ↦ rw miss (a.0, All-update_rows rows a.1)
    ]

    pub All-upserted : P row → (rows : List R) → All P rows → All P (upserted rows)
    All-upserted p rows a = elim (Bool-cases (any same rows)) [
      | inl old ↦ rw old (All-update_rows rows a)
      | inr new ↦ rw new (All-append P rows (row ∷ []) a (p, tt))
    ]

  module _ (q : R → Bool) (keeps : (r : R) → q (set r) ≡ q r) where
    any-update_rows : (rows : List R) → any q (update_rows same set rows) ≡ any q rows
    any-update_rows [] = refl
    any-update_rows (r ∷ rows) = elim (Bool-cases (same r)) [
      | inl hit ↦ rw (hit, keeps r, any-update_rows rows) refl
      | inr miss ↦ rw (miss, any-update_rows rows) refl
    ]

    any-append : (rows : List R) → any q (rows ++ row ∷ []) ≡ (any q rows || q row)
    any-append [] = ground arith
    any-append (r ∷ rows) = ground (arith, any-append rows)

    -- What some row has, some row has afterwards, and so does what the new row has.
    pub any-upserted_old : (rows : List R) → any q rows ≡ true → any q (upserted rows) ≡ true
    any-upserted_old rows h = elim (Bool-cases (any same rows)) [
      | inl old ↦ rw (old, any-update_rows rows) h
      | inr new ↦ rw (new, any-append rows, h) refl
    ]

  pub any-upserted_new :
      ((r : R) → same (set r) ≡ same r)
      → same row ≡ true
      → (rows : List R) → any same (upserted rows) ≡ true
  any-upserted_new keeps self rows = elim (Bool-cases (any same rows)) [
    | inl old ↦ rw (old, any-update_rows same keeps rows) old
    | inr new ↦ rw (new, any-append same keeps rows, new, self) refl
  ]
