-- ===== src/Base/Lists.antt =====
-- Lists measured, indexed and sliced by native numbers, under the library's names.
use Prim.Native.Nat.{ℕ, zero, suc, ◌+◌, ◌-◌, min}
use mathlib.Core.Path.{◌≡◌, refl, ap}
use mathlib.Core.Bool.{Bool, true, false, not, ◌||◌, ◌&&◌}
use mathlib.Core.List.{List, [], ◌∷◌, ◌++◌}
use mathlib.Core.Option.{Option, none, some}
use mathlib.Core.Logic.{inl, inr}
use native.Mathlib.Omega.{arith}
use tokenbridge_monitor.Base.Tests.{if◌then◌else◌, leb, Bool-cases}

module _ {ℓ} {A : Type ℓ} where
  abbrev pub length : List A → ℕ
  length [] = 0
  length (x ∷ xs) = suc (length xs)

  abbrev pub get_elem? : List A → ℕ → Option A
  get_elem? [] i = none
  get_elem? (x ∷ xs) zero = some x
  get_elem? (x ∷ xs) (suc i) = get_elem? xs i

  abbrev pub take : ℕ → List A → List A
  take zero xs = []
  take (suc n) [] = []
  take (suc n) (x ∷ xs) = x ∷ take n xs

  abbrev pub drop : ℕ → List A → List A
  drop zero xs = xs
  drop (suc n) [] = []
  drop (suc n) (x ∷ xs) = drop n xs

  abbrev pub filter_by : (A → Bool) → List A → List A
  filter_by p [] = []
  filter_by p (x ∷ xs) = let rest = filter_by p xs in if p x then x ∷ rest else rest

  abbrev pub find_by : (A → Bool) → List A → Option A
  find_by p [] = none
  find_by p (x ∷ xs) = if p x then some x else find_by p xs

  abbrev pub any : (A → Bool) → List A → Bool
  any p [] = false
  any p (x ∷ xs) = p x || any p xs

  abbrev pub concat : List (List A) → List A
  concat [] = []
  concat (xs ∷ xss) = xs ++ concat xss

module _ {ℓ} {A : Type ℓ} where
  pub length-append : (xs ys : List A) → length (xs ++ ys) ≡ length xs + length ys
  length-append [] ys = omega arith
  length-append (x ∷ xs) ys = omega (arith, length-append xs ys)

  pub drop-length-append : (xs ys : List A) → drop (length xs) (xs ++ ys) ≡ ys
  drop-length-append [] ys = refl
  drop-length-append (x ∷ xs) ys = drop-length-append xs ys

  pub take-length-append : (xs ys : List A) → take (length xs) (xs ++ ys) ≡ xs
  take-length-append [] ys = refl
  take-length-append (x ∷ xs) ys = ap (◌∷◌ x) (take-length-append xs ys)

  pub get_elem?-length-append :
      (xs : List A) (y : A) (ys : List A) → get_elem? (xs ++ y ∷ ys) (length xs) ≡ some y
  get_elem?-length-append [] y ys = refl
  get_elem?-length-append (x ∷ xs) y ys = get_elem?-length-append xs y ys

  pub length-take : (n : ℕ) (xs : List A) → length (take n xs) ≡ min n (length xs)
  length-take zero xs = omega arith
  length-take (suc n) [] = omega arith
  length-take (suc n) (x ∷ xs) = omega (arith, length-take n xs)

  pub length-drop : (n : ℕ) (xs : List A) → length (drop n xs) ≡ length xs - n
  length-drop zero xs = omega arith
  length-drop (suc n) [] = omega arith
  length-drop (suc n) (x ∷ xs) = omega (arith, length-drop n xs)

-- Each element has the property.
abbrev pub All {κ μ} : {B : Type κ} → (B → Type μ) → List B → Type μ
All Q [] = Unit
All Q (y ∷ ys) = Q y × All Q ys

-- `xs[from:to]`; Go panics where the bounds are out of order or past the end.
abbrev pub slice {ℓ} : {A : Type ℓ} → ℕ → ℕ → List A → Option (List A)
slice from to xs =
    if leb from to && leb to (length xs) then some (take (to - from) (drop from xs)) else none

pub All-append {κ μ} :
    {B : Type κ} (Q : B → Type μ) (front back : List B)
    → All Q front
    → All Q back
    → All Q (front ++ back)
All-append Q [] back f b = b
All-append Q (y ∷ front) back f b = (f.0, All-append Q front back f.1 b)

pub All-any-not {κ} :
    {B : Type κ} (p : B → Bool) (xs : List B)
    → any (λ x. not (p x)) xs ≡ false
    → All (λ x. p x ≡ true) xs
All-any-not p [] h = tt
All-any-not p (x ∷ xs) h = (ground arith, All-any-not p xs (ground arith))

pub any-same {κ} :
    {B : Type κ} (p q : B → Bool) (xs : List B) → ((x : B) → p x ≡ q x) → any p xs ≡ any q xs
any-same p q [] e = refl
any-same p q (x ∷ xs) e = rw (e x, any-same p q xs e)

pub any-never {κ} :
    {B : Type κ} (p : B → Bool) (xs : List B) → ((x : B) → p x ≡ false) → any p xs ≡ false
any-never p [] e = refl
any-never p (x ∷ xs) e = rw (e x, any-never p xs e)

pub All-imp {κ μ ν} :
    {B : Type κ} (P : B → Type μ) (Q : B → Type ν) (xs : List B)
    → ((x : B) → P x → Q x)
    → All P xs
    → All Q xs
All-imp P Q [] f a = tt
All-imp P Q (x ∷ xs) f a = (f x a.0, All-imp P Q xs f a.1)

module _ {κ} {B : Type κ} (p : B → Bool) where
  pub find_by-none : (xs : List B) → find_by p xs ≡ none → any p xs ≡ false
  find_by-none [] h = refl
  find_by-none (x ∷ xs) h = elim (Bool-cases (p x)) [
    | inl hit ↦ absurd (cc (rw hit at h))
    | inr miss ↦ rw miss (find_by-none xs (rw miss at h))
  ]

  pub find_by-some :
      (xs : List B) (y : B) → find_by p xs ≡ some y → (p y ≡ true) × (any p xs ≡ true)
  find_by-some [] y h = absurd (cc h)
  find_by-some (x ∷ xs) y h = elim (Bool-cases (p x)) [
    | inl hit ↦ let it : some x ≡ some y = rw hit at h in (ground (arith, hit), rw hit)
    | inr miss ↦ let (q, a) = find_by-some xs y (rw miss at h) in (q, rw miss a)
  ]
