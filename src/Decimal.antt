-- ===== src/Decimal.antt =====
-- The interface of decimal.js (and of Prisma's `Decimal`, which is the same class): a package that
-- the repository depends on, so its operations are fields of a record that the model takes as an
-- instance argument. A JavaScript number that the source hands to a `Decimal` method is the value
-- `new Decimal(n)` of it.
pub mod Exact
pub mod Sum
use backend_showcase.Prelude.{ℕ, String, Bool, not, if◌then◌else◌}

pub record Decimal (D : Type 0) : Type 0 where
  -- `new Decimal(n)` of a whole number
  pub from_ℕ : ℕ → D
  -- `new Decimal(1e-7)`
  pub tolerance : D
  pub add : D → D → D
  pub sub : D → D → D
  pub mul : D → D → D
  pub div : D → D → D
  pub negated : D → D
  pub abs : D → D
  pub less_than : D → D → Bool
  pub less_than_or_equal_to : D → D → Bool
  pub equals : D → D → Bool
  -- `Number(x)` and `x.toNumber()`: the nearest double, as the decimal that it stands for
  pub to_number : D → D
  -- `${n}` of the number `n`
  pub to_string : D → String

module _ {D : Type 0} ⦃dec : Decimal D⦄ where
  -- `a.greaterThan(b)`
  abbrev pub greater_than : D → D → Bool
  greater_than a b = dec.less_than b a

  -- `a.greaterThanOrEqualTo(b)`
  abbrev pub greater_than_or_equal_to : D → D → Bool
  greater_than_or_equal_to a b = dec.less_than_or_equal_to b a
