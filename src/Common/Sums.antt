-- ===== src/Common/Sums.antt =====
-- Sums of whole numbers over a list.
use Prim.Native.Nat.{ℕ, ◌+◌}
use native.Mathlib.Omega.{arith}
use mathlib.Core.Path.{◌≡◌, ap, sym, ◌∙◌}
use mathlib.Core.List.{List, [], ◌∷◌, ◌++◌}
use c_faas_emulator.Common.Int.{ℤ, ◌+ℤ◌, pos, int_laws, +ℤ_assoc, +ℤ_zero}

module _ {ℓ} {A : Type ℓ} (w : A → ℤ) where
  unfoldable pub sum_by : List A → ℤ
  sum_by [] = pos 0
  sum_by (x ∷ xs) = w x +ℤ sum_by xs

  pub sum_by-append : (xs ys : List A) → sum_by (xs ++ ys) ≡ sum_by xs +ℤ sum_by ys
  unfolding sum_by
  sum_by-append [] ys = omega int_laws
  sum_by-append (x ∷ xs) ys =
      ap (◌+ℤ◌ (w x)) (sum_by-append xs ys) ∙ sym (+ℤ_assoc (w x) (sum_by xs) (sum_by ys))

  pub sum_by-snoc : (xs : List A) (a : A) → sum_by (xs ++ a ∷ []) ≡ sum_by xs +ℤ w a
  unfolding sum_by
  sum_by-snoc xs a = sum_by-append xs (a ∷ []) ∙ ap (◌+ℤ◌ (sum_by xs)) (+ℤ_zero (w a))

  -- Taking an entry out of the middle takes it off the sum.
  pub sum_by-middle : (xs ys : List A) (a : A) → sum_by (xs ++ a ∷ ys) ≡ sum_by (xs ++ ys) +ℤ w a
  unfolding sum_by
  sum_by-middle [] ys a = omega int_laws
  sum_by-middle (x ∷ xs) ys a =
      ap (◌+ℤ◌ (w x)) (sum_by-middle xs ys a) ∙ sym (+ℤ_assoc (w x) (sum_by (xs ++ ys)) (w a))

-- The same for natural numbers.
module _ {ℓ} {A : Type ℓ} (w : A → ℕ) where
  abbrev pub count_by : List A → ℕ
  count_by [] = 0
  count_by (x ∷ xs) = w x + count_by xs

  pub count_by-middle :
      (xs ys : List A) (a : A) → count_by (xs ++ a ∷ ys) ≡ count_by (xs ++ ys) + w a
  count_by-middle [] ys a = omega arith
  count_by-middle (x ∷ xs) ys a = omega (arith, count_by-middle xs ys a)

  pub count_by-append : (xs ys : List A) → count_by (xs ++ ys) ≡ count_by xs + count_by ys
  count_by-append [] ys = omega arith
  count_by-append (x ∷ xs) ys = omega (arith, count_by-append xs ys)
