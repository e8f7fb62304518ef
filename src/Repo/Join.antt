-- ===== src/Repo/Join.antt =====
-- The clauses of SELECT that the queries use, by their documented meaning on lists of rows: JOIN,
-- LEFT JOIN and ORDER BY. A column that is NULL for want of a match is `none`.
use mathlib.Core.List.{map-append}
use tokenbridge_monitor.Base.{
  ◌≡◌, refl, ap, ◌∙◌, Bool, true, false, not, ◌&&◌, ◌||◌, Option, none, some, List, [], ◌∷◌, ◌++◌,
  map, Bytes, filter_by, any, ltb, if◌then◌else◌, Bool-cases, inl, inr, arith,
}

abbrev pub is_none {ℓ} : {A : Type ℓ} → Option A → Bool
is_none none = true
is_none (some a) = false

module _ {ℓ κ} {A : Type ℓ} {B : Type κ} where
  -- Each pair of rows that the condition lets through.
  abbrev pub join : (A → B → Bool) → List A → List B → List (A × B)
  join on [] bs = []
  join on (a ∷ as') bs = map (λ b. (a, b)) (filter_by (on a) bs) ++ join on as' bs

  -- A row with its matches, or with none.
  abbrev pub with_matches : A → List B → List (A × Option B)
  with_matches a [] = (a, none) ∷ []
  with_matches a (b ∷ bs) = map (λ x. (a, some x)) (b ∷ bs)

  abbrev pub left_join : (A → B → Bool) → List A → List B → List (A × Option B)
  left_join on [] bs = []
  left_join on (a ∷ as') bs = with_matches a (filter_by (on a) bs) ++ left_join on as' bs

-- ORDER BY: rows with the same key stay in their order.
module _ {ℓ} {A : Type ℓ} (before : A → A → Bool) where
  abbrev pub insert_by : A → List A → List A
  insert_by a [] = a ∷ []
  insert_by a (x ∷ xs) = let rest = insert_by a xs in if before x a then x ∷ rest else a ∷ x ∷ xs

  abbrev pub order_by : List A → List A
  order_by [] = []
  order_by (x ∷ xs) = insert_by x (order_by xs)

module _ {ℓ} {A : Type ℓ} (before : A → A → Bool) where
  any-insert_by :
      (p : A → Bool) (a : A) (xs : List A) → any p (insert_by before a xs) ≡ (p a || any p xs)
  any-insert_by p a [] = refl
  any-insert_by p a (x ∷ xs) = elim (Bool-cases (before x a)) [
    | inl first ↦ rw first (ground (arith, any-insert_by p a xs))
    | inr later ↦ rw later
  ]

  -- Sorting keeps the rows.
  pub any-order_by : (p : A → Bool) (xs : List A) → any p (order_by before xs) ≡ any p xs
  any-order_by p [] = refl
  any-order_by p (x ∷ xs) =
      any-insert_by p x (order_by before xs) ∙ ap (λ b. p x || b) (any-order_by p xs)

pub any-filter_by {ℓ} :
    {A : Type ℓ} (p q : A → Bool) (xs : List A) → any p (filter_by q xs) ≡ any (λ x. q x && p x) xs
any-filter_by p q [] = refl
any-filter_by p q (x ∷ xs) = elim (Bool-cases (q x)) [
  | inl yes_x ↦ rw yes_x (ap (λ b. p x || b) (any-filter_by p q xs))
  | inr no_x ↦ rw no_x (any-filter_by p q xs)
]

-- The order of `bytea`.
abbrev pub bytes_before : Bytes → Bytes → Bool
bytes_before [] [] = false
bytes_before [] (y ∷ ys) = true
bytes_before (x ∷ xs) [] = false
bytes_before (x ∷ xs) (y ∷ ys) =
    let rest = bytes_before xs ys in if ltb x y then true else (if ltb y x then false else rest)

abbrev is_empty {ℓ} : {A : Type ℓ} → List A → Bool
is_empty [] = true
is_empty (x ∷ xs) = false

is_empty-filter_by {ℓ} :
    {A : Type ℓ} (q : A → Bool) (xs : List A) → is_empty (filter_by q xs) ≡ not (any q xs)
is_empty-filter_by q [] = refl
is_empty-filter_by q (x ∷ xs) = ground (arith, is_empty-filter_by q xs)

filter_by-append {ℓ} :
    {A : Type ℓ} (q : A → Bool) (xs ys : List A)
    → filter_by q (xs ++ ys) ≡ filter_by q xs ++ filter_by q ys
filter_by-append q [] ys = refl
filter_by-append q (x ∷ xs) ys = elim (Bool-cases (q x)) [
  | inl yes_x ↦ rw yes_x (ap (◌∷◌ x) (filter_by-append q xs ys))
  | inr no_x ↦ rw no_x (filter_by-append q xs ys)
]

module _ {ℓ κ} {A : Type ℓ} {B : Type κ} (p : A → Bool) where
  -- The rows that pass `p` and had no match.
  abbrev pub unmatched : List (A × Option B) → List A
  unmatched rows =
      map (λ (r : A × Option B). r.0) (filter_by (λ (r : A × Option B). p r.0 && is_none r.1) rows)

  unmatched-some : (a : A) (bs : List B) → unmatched (map (λ x. (a, some x)) bs) ≡ []
  unmatched-some a [] = refl
  unmatched-some a (b ∷ bs) = elim (Bool-cases (p a)) [
    | inl yes_a ↦ rw yes_a (unmatched-some a bs)
    | inr no_a ↦ rw no_a (unmatched-some a bs)
  ]

  unmatched-with_matches :
      (a : A) (bs : List B)
      → unmatched (with_matches a bs) ≡ (if p a && is_empty bs then a ∷ [] else [])
  unmatched-with_matches a [] = ground arith
  unmatched-with_matches a (b ∷ bs) = unmatched-some a (b ∷ bs) ∙ ground arith

  unmatched-append :
      (xs ys : List (A × Option B)) → unmatched (xs ++ ys) ≡ unmatched xs ++ unmatched ys
  unmatched-append xs ys =
      rw (filter_by-append (λ (r : A × Option B). p r.0 && is_none r.1) xs ys) (map-append _ _ _)

  -- A LEFT JOIN whose right side is NULL is the rows with no match.
  pub unmatched-left_join :
      (on : A → B → Bool) (rows : List A) (bs : List B)
      → unmatched (left_join on rows bs) ≡ filter_by (λ a. p a && not (any (on a) bs)) rows
  unmatched-left_join on [] bs = refl
  unmatched-left_join on (a ∷ rows) bs =
      rw
        (
          unmatched-append (with_matches a (filter_by (on a) bs)) (left_join on rows bs),
          unmatched-with_matches a (filter_by (on a) bs),
          is_empty-filter_by (on a) bs,
          unmatched-left_join on rows bs,
        )
        (elim (Bool-cases (p a && not (any (on a) bs))) [ inl t ↦ rw t refl | inr f ↦ rw f refl ])
