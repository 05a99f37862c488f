-- ===== src/Decimal/Exact.antt =====
-- What the code relies on of decimal.js: as long as no result needs more digits than the
-- configured precision (the columns are `Decimal(20, 8)`), sums, differences, negations, absolute
-- values and comparisons are those of the values as whole numbers of the smallest unit.
use backend_showcase.Prelude.{◌≡◌, ap, ◌+◌, arith}
use backend_showcase.Prelude.Int.{
  ℤ, pos, pos_part, neg_part, ◌+ℤ◌, ◌-ℤ◌, ◌≤ℤ◌, ltb_ℤ, leb_ℤ, abs_ℤ, int_laws, +ℤ_parts, -ℤ_parts,
}
use backend_showcase.Decimal.{Decimal}

pub record IsExact {D : Type 0} (dec : Decimal D) : Type 0 where
  -- the value of a decimal in the smallest unit
  pub units : D → ℤ
  pub units-zero : units (dec.from_ℕ 0) ≡ pos 0
  pub units-tolerance : pos 0 ≤ℤ units dec.tolerance
  pub units-add : (a b : D) → units (dec.add a b) ≡ units a +ℤ units b
  pub units-sub : (a b : D) → units (dec.sub a b) ≡ units a -ℤ units b
  pub units-negated : (a : D) → units (dec.negated a) ≡ pos 0 -ℤ units a
  pub units-abs : (a : D) → units (dec.abs a) ≡ abs_ℤ (units a)
  pub less_than-eq : (a b : D) → dec.less_than a b ≡ ltb_ℤ (units a) (units b)
  pub less_than_or_equal_to-eq :
      (a b : D) → dec.less_than_or_equal_to a b ≡ leb_ℤ (units a) (units b)

module _ {D : Type 0} ⦃dec : Decimal D⦄ ⦃exact : IsExact dec⦄ where
  -- The value of a decimal in the smallest unit.
  abbrev pub units : D → ℤ
  units a = exact.units a

  -- The laws in the form that `omega` reads.
  pub add_parts :
      (a b : D)
      → pos_part (units (dec.add a b)) + neg_part (units a) + neg_part (units b)
        ≡ neg_part (units (dec.add a b)) + pos_part (units a) + pos_part (units b)
  add_parts a b = rw (exact.units-add a b) (+ℤ_parts (units a) (units b))

  pub sub_parts :
      (a b : D)
      → pos_part (units (dec.sub a b)) + neg_part (units a) + pos_part (units b)
        ≡ neg_part (units (dec.sub a b)) + pos_part (units a) + neg_part (units b)
  sub_parts a b = rw (exact.units-sub a b) (-ℤ_parts (units a) (units b))

  pub negated_parts :
      (a : D)
      → pos_part (units (dec.negated a)) + pos_part (units a)
        ≡ neg_part (units (dec.negated a)) + neg_part (units a)
  negated_parts a = rw (exact.units-negated a) (omega (arith, -ℤ_parts (pos 0) (units a)))

pub zero_parts :
    {D : Type 0} {dec : Decimal D} (exact : IsExact dec)
    → (pos_part (exact.units (dec.from_ℕ 0)) ≡ 0) × (neg_part (exact.units (dec.from_ℕ 0)) ≡ 0)
zero_parts exact = (ap pos_part exact.units-zero, ap neg_part exact.units-zero)

pub ruleset exact_laws = (int_laws, add_parts, sub_parts, negated_parts)
