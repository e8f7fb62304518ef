-- ===== src/Base/Segments.antt =====
-- Reading a part of a list that is put together from segments.
use Prim.Native.Nat.{ℕ, ◌+◌, ◌-◌, ◌≤◌}
use mathlib.Core.Path.{◌≡◌, refl, sym, ap, ◌∙◌}
use mathlib.Core.List.{List, [], ◌∷◌, ◌++◌, append_assoc}
use mathlib.Core.Option.{some}
use native.Mathlib.Omega.{arith}
use tokenbridge_monitor.Base.Tests.{le→leb}
use tokenbridge_monitor.Base.Lists.{
  length, get_elem?, concat, slice, length-append, drop-length-append, take-length-append,
  get_elem?-length-append,
}

module _ {ℓ} {A : Type ℓ} where
  abbrev pub total : List (List A) → ℕ
  total [] = 0
  total (xs ∷ xss) = length xs + total xss

  pub length-concat : (xss : List (List A)) → length (concat xss) ≡ total xss
  length-concat [] = omega arith
  length-concat (xs ∷ xss) = omega (arith, length-append xs (concat xss), length-concat xss)

  concat-append : (xss yss : List (List A)) → concat (xss ++ yss) ≡ concat xss ++ concat yss
  concat-append [] yss = refl
  concat-append (xs ∷ xss) yss =
      ap (◌++◌ xs) (concat-append xss yss) ∙ sym (append_assoc xs (concat xss) (concat yss))

  slice-append :
      (from to : ℕ) (xs ys zs : List A)
      → length xs ≡ from
      → from + length ys ≡ to
      → slice from to (xs ++ (ys ++ zs)) ≡ some ys
  slice-append from to xs ys zs e h =
      let size : to - from ≡ length ys = omega arith in
      let within : to ≤ length (xs ++ (ys ++ zs)) =
        omega (arith, length-append xs (ys ++ zs), length-append ys zs) in
      rw
        (
          le→leb from to (omega arith),
          le→leb to (length (xs ++ (ys ++ zs))) within,
          size,
          sym e,
          drop-length-append xs (ys ++ zs),
          take-length-append ys zs,
        )
        refl

  -- The segment `xs` after the segments `pre`.
  pub slice-concat :
      (pre : List (List A)) (xs : List A) (post : List (List A)) (from to : ℕ)
      → total pre ≡ from
      → from + length xs ≡ to
      → slice from to (concat (pre ++ xs ∷ post)) ≡ some xs
  slice-concat pre xs post from to e h =
      rw (concat-append pre (xs ∷ post))
        (slice-append from to (concat pre) xs (concat post) (length-concat pre ∙ e) h)

  -- All that follows the segments `pre`.
  pub slice_rest-concat :
      (pre : List (List A)) (xs : List A) (from : ℕ)
      → total pre ≡ from
      → slice from (length (concat (pre ++ xs ∷ []))) (concat (pre ++ xs ∷ [])) ≡ some xs
  slice_rest-concat pre xs from e =
      let whole : concat (pre ++ xs ∷ []) ≡ concat pre ++ (xs ++ []) =
        concat-append pre (xs ∷ []) in
      let size : from + length xs ≡ length (concat (pre ++ xs ∷ [])) = rw whole (
        omega
          (arith, length-concat pre, length-append (concat pre) (xs ++ []), length-append xs [])) in
      slice-concat pre xs [] from _ e size

  -- The first element of the segment after the segments `pre`.
  pub get_elem?-concat :
      (pre : List (List A)) (x : A) (xs : List A) (post : List (List A)) (i : ℕ)
      → total pre ≡ i
      → get_elem? (concat (pre ++ (x ∷ xs) ∷ post)) i ≡ some x
  get_elem?-concat pre x xs post i e =
      rw (concat-append pre ((x ∷ xs) ∷ post), sym e, sym (length-concat pre))
        (get_elem?-length-append (concat pre) x (xs ++ concat post))
