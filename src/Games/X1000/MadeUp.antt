-- ===== src/Games/X1000/MadeUp.antt =====
-- What a resolved x1000 bet is made up of, and what the ledger does with it.
use backend_showcase.Prelude.{◌≡◌, ◌≢◌, refl, sym, arith, ◌∙◌, Option, none, some, true, false}
use backend_showcase.Prelude.Int.{◌+ℤ◌}
use backend_showcase.Decimal.{Decimal, greater_than}
use backend_showcase.Decimal.Exact.{IsExact, units, exact_laws}
use backend_showcase.Games.X1000.{X1000Bet, resolve_priced, reject_unpriced, resolve_x1000}

true_differs : true ≢ false
true_differs e = ground arith

module _ {D : Type 0} ⦃dec : Decimal D⦄ ⦃exact : IsExact dec⦄ where
  -- the outcome of a bet with both prices is its amount and its profit or loss
  pub resolve_priced-outcome :
      (fee : D) (bet : X1000Bet D) (start_price end_price : D)
      → units (resolve_priced fee bet start_price end_price).outcome
        ≡ units (resolve_priced fee bet start_price end_price).bet.amount
          +ℤ units (resolve_priced fee bet start_price end_price).pnl
  unfolding resolve_priced
  resolve_priced-outcome fee bet start_price end_price = omega exact_laws

  pub reject_unpriced-outcome :
      (bet : X1000Bet D) → greater_than (reject_unpriced bet).outcome (dec.from_ℕ 0) ≡ false
  unfolding reject_unpriced
  reject_unpriced-outcome bet =
      exact.less_than-eq (dec.from_ℕ 0) (dec.from_ℕ 0) ∙ rw exact.units-zero refl

  never_wins :
      {A : Type 0} (bet : X1000Bet D)
      → greater_than (reject_unpriced bet).outcome (dec.from_ℕ 0) ≡ true
      → A
  never_wins bet wins = absurd (true_differs (sym wins ∙ reject_unpriced-outcome bet))

  -- If a resolved bet brings anything, it is the amount of the bet and its profit or loss.
  pub resolve_x1000-outcome :
      (fee : D) (bet : X1000Bet D) (start_price end_price : Option D)
      → greater_than (resolve_x1000 fee bet start_price end_price).outcome (dec.from_ℕ 0) ≡ true
      → units (resolve_x1000 fee bet start_price end_price).outcome
        ≡ units (resolve_x1000 fee bet start_price end_price).bet.amount
          +ℤ units (resolve_x1000 fee bet start_price end_price).pnl
  unfolding resolve_x1000
  resolve_x1000-outcome fee bet none end_price wins = never_wins bet wins
  resolve_x1000-outcome fee bet (some start_price) none wins = never_wins bet wins
  resolve_x1000-outcome fee bet (some start_price) (some end_price) wins =
      resolve_priced-outcome fee bet start_price end_price
