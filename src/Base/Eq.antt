-- ===== src/Base/Eq.antt =====
-- One `==` for numbers, texts and byte arrays, as Go has it.
use Prim.Native.Nat.{ℕ}
use Prim.Native.String.{String}
use mathlib.Core.Path.{◌≡◌, refl, sym, ◌∙◌}
use mathlib.Core.Logic.{◌↔◌, inl, inr}
use mathlib.Core.Bool.{Bool, true, false, ◌&&◌}
use mathlib.Core.List.{List, [], ◌∷◌}
use native.Mathlib.Omega.{arith}
use text.Mathlib.Text.{◌==◌ as str_eq}
use text.Mathlib.TextEquality.{eq_iff}
use tokenbridge_monitor.Base.Tests.{nat_beq, nat_beq_iff, Bool-cases}

-- A decided equality; `same` computes.
pub record Comparable {κ} (B : Type κ) : Type κ where
  pub same : B → B → Bool
  pub same_iff : (x y : B) → (same x y ≡ true) ↔ (x ≡ y)

infix 50 ◌==◌
abbrev pub ◌==◌ {κ} : {B : Type κ} ⦃c : Comparable B⦄ → B → B → Bool
◌==◌ ⦃c⦄ x y = c.same x y

abbrev pub Bytes : Type 0
Bytes = List ℕ

-- `bytes.Equal`, and `==` on byte arrays.
abbrev pub bytes_beq : Bytes → Bytes → Bool
bytes_beq [] [] = true
bytes_beq [] (y ∷ ys) = false
bytes_beq (x ∷ xs) [] = false
bytes_beq (x ∷ xs) (y ∷ ys) = nat_beq x y && bytes_beq xs ys

pub bytes_beq_iff : (a b : Bytes) → (bytes_beq a b ≡ true) ↔ (a ≡ b)
bytes_beq_iff [] [] = ground arith
bytes_beq_iff [] (y ∷ ys) = ground arith
bytes_beq_iff (x ∷ xs) [] = ground arith
bytes_beq_iff (x ∷ xs) (y ∷ ys) = ground (arith, bytes_beq_iff xs ys)

instance abbrev pub bytes_eq : Comparable Bytes
bytes_eq = record { same = bytes_beq; same_iff = bytes_beq_iff }

instance abbrev pub string_eq : Comparable String
string_eq = record { same = str_eq; same_iff = eq_iff }

instance abbrev pub nat_eq : Comparable ℕ
nat_eq = record { same = nat_beq; same_iff = nat_beq_iff }

pub beq_refl {κ} : {B : Type κ} ⦃c : Comparable B⦄ (x : B) → (x == x) ≡ true
beq_refl ⦃c⦄ x = (c.same_iff x x).1 refl

pub beq_sym {κ} : {B : Type κ} ⦃c : Comparable B⦄ (x y : B) → (x == y) ≡ (y == x)
beq_sym ⦃c⦄ x y = elim (Bool-cases (x == y)) [
  | inl equal ↦ equal ∙ sym ((c.same_iff y x).1 (sym ((c.same_iff x y).0 equal)))
  | inr differ ↦ elim (Bool-cases (y == x)) [
    | inl equal ↦ absurd (cc (differ, (c.same_iff x y).1 (sym ((c.same_iff y x).0 equal))))
    | inr never ↦ differ ∙ sym never
  ]
]
