-- ===== src/Decimal/Sum.antt =====
-- The loops that add up decimals from `new Decimal(0)`, and the sum that they compute.
use backend_showcase.Prelude.{◌≡◌, ◌∙◌, List, [], ◌∷◌, ◌++◌}
use backend_showcase.Prelude.Int.{ℤ, pos, ◌+ℤ◌}
use backend_showcase.Decimal.{Decimal}
use backend_showcase.Decimal.Exact.{IsExact, units, exact_laws}

module _ {D : Type 0} ⦃dec : Decimal D⦄ where
  unfoldable pub sum_from : D → List D → D
  sum_from acc [] = acc
  sum_from acc (x ∷ xs) = sum_from (dec.add acc x) xs

  unfoldable pub total : List D → D
  unfolding sum_from
  total xs = sum_from (dec.from_ℕ 0) xs

module _ {D : Type 0} ⦃dec : Decimal D⦄ ⦃exact : IsExact dec⦄ where
  abbrev pub sum_units : List D → ℤ
  sum_units [] = pos 0
  sum_units (x ∷ xs) = units x +ℤ sum_units xs

  pub units-sum_from : (acc : D) (xs : List D) → units (sum_from acc xs) ≡ units acc +ℤ sum_units xs
  unfolding sum_from
  units-sum_from acc [] = omega exact_laws
  units-sum_from acc (x ∷ xs) = units-sum_from (dec.add acc x) xs ∙ omega exact_laws

  pub units-total : (xs : List D) → units (total xs) ≡ sum_units xs
  unfolding total
  units-total xs = units-sum_from (dec.from_ℕ 0) xs ∙ rw exact.units-zero (omega exact_laws)

  pub sum_units-append : (xs ys : List D) → sum_units (xs ++ ys) ≡ sum_units xs +ℤ sum_units ys
  sum_units-append [] ys = omega exact_laws
  sum_units-append (x ∷ xs) ys = rw (sum_units-append xs ys) (omega exact_laws)
