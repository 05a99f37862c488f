-- ===== src/Tests/Whole.antt =====
-- Whole numbers as decimals.
use backend_showcase.Prelude.{suc, ◌/◌, String, refl, ◌==◌, ◌&&◌, ◌+s◌, show_ℕ, arith}
use backend_showcase.Prelude.Int.{
  ℤ, pos, negsuc, pos_part, neg_part, sub_ℕ, ◌+ℤ◌, ◌-ℤ◌, ◌*ℤ◌, ltb_ℤ, leb_ℤ, abs_ℤ,
}
use backend_showcase.Decimal.{Decimal}
use backend_showcase.Decimal.Exact.{IsExact}

-- The quotient, rounded towards zero.
unfoldable pub div_ℤ : ℤ → ℤ → ℤ
div_ℤ (pos a) (pos b) = pos (a / b)
div_ℤ (pos a) (negsuc b) = sub_ℕ 0 (a / suc b)
div_ℤ (negsuc a) (pos b) = sub_ℕ 0 (suc a / b)
div_ℤ (negsuc a) (negsuc b) = pos (suc a / suc b)

unfoldable pub show_ℤ : ℤ → String
show_ℤ (pos n) = show_ℕ n
show_ℤ (negsuc n) = "-" +s show_ℕ (suc n)

instance abbrev pub whole : Decimal ℤ
whole = record {
  from_ℕ = pos;
  tolerance = pos 0;
  add = ◌+ℤ◌;
  sub = ◌-ℤ◌;
  mul = ◌*ℤ◌;
  div = div_ℤ;
  negated = λ a. pos 0 -ℤ a;
  abs = abs_ℤ;
  less_than = ltb_ℤ;
  less_than_or_equal_to = leb_ℤ;
  equals = λ a b. pos_part a == pos_part b && neg_part a == neg_part b;
  to_number = λ a. a;
  to_string = show_ℤ;
}

instance abbrev pub whole-IsExact : IsExact whole
whole-IsExact = record {
  units = λ a. a;
  units-zero = refl;
  units-tolerance = omega arith;
  units-add = λ a b. refl;
  units-sub = λ a b. refl;
  units-negated = λ a. refl;
  units-abs = λ a. refl;
  less_than-eq = λ a b. refl;
  less_than_or_equal_to-eq = λ a b. refl;
}
