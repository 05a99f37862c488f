-- ===== src/Games/X1000/Bounds.antt =====
-- What `getX1000GameResult` (libs/core/src/games-helpers/x1000.helpers.ts) can take from a bet.
use backend_showcase.Prelude.{
  ◌≡◌, refl, ◌∙◌, ap, sym, some, List, ◌∷◌, true, false, Bool-cases, inl, inr, ◌⊎◌, arith,
  if◌then◌else◌, ◌≤◌, ltb, ℕ,
}
use backend_showcase.Prelude.Int.{◌+ℤ◌, ◌≤ℤ◌, int_laws}
use backend_showcase.Decimal.{Decimal, greater_than}
use backend_showcase.Decimal.Exact.{IsExact, units}
use backend_showcase.Ledger.Result.{ok}
use backend_showcase.Games.X1000.{
  X1000Bet, X1000Game, ResolvedBet, minus_hundred, roi_of, fee_of, is_pnl_fee, resolve_priced,
  resolve_x1000, get_x1000_game_result,
}
use backend_showcase.Games.X1000.MadeUp.{resolve_priced-outcome}

not_below : (m n : ℕ) → ltb m n ≡ false → n ≤ m
not_below m n h = ground arith

module _ {D : Type 0} ⦃dec : Decimal D⦄ ⦃exact : IsExact dec⦄ where
  bound_is_kept :
      (bound supposed : D)
      → units bound ≤ℤ units (if dec.less_than supposed bound then bound else supposed)
  bound_is_kept bound supposed = elim (Bool-cases (dec.less_than supposed bound)) [
    | inl below ↦ rw below (omega int_laws)
    | inr above ↦ rw above (not_below _ _ (sym (exact.less_than-eq supposed bound) ∙ above))
  ]

  roi_of-bound :
      (bet : X1000Bet D) (start_price end_price : D)
      → units (minus_hundred {D = D}) ≤ℤ units (roi_of bet start_price end_price)
  unfolding roi_of
  roi_of-bound bet start_price end_price = bound_is_kept (minus_hundred {D = D}) _

  no_fee :
      (bet : X1000Bet D) (fee roi : D)
      → greater_than roi (dec.from_ℕ 0) ≡ false
      → fee_of bet fee roi ≡ dec.from_ℕ 0
  unfolding fee_of
  no_fee bet fee roi no_profit = rw no_profit refl

  priced_fee :
      (bet : X1000Bet D) (fee roi : D)
      → (is_pnl_fee bet.fee_type ≡ false)
        ⊎ ((greater_than roi (dec.from_ℕ 0) ≡ true)
            ⊎ ((if is_pnl_fee bet.fee_type then some (fee_of bet fee roi) else bet.fee)
                ≡ some (dec.from_ℕ 0)))
  priced_fee bet fee roi = elim (Bool-cases (is_pnl_fee bet.fee_type)) [
    | inr flat ↦ inl flat
    | inl by_profit ↦ elim (Bool-cases (greater_than roi (dec.from_ℕ 0))) [
      | inl profit ↦ inr (inl profit)
      | inr no_profit ↦ inr (inr (rw by_profit (ap some (no_fee bet fee roi no_profit))))
    ]
  ]

  -- An x1000 game with a bet and both prices has a result, in which the return is not below -100
  -- percent, the outcome is the amount of the bet and its profit or loss, and a bet whose fee is a
  -- share of the profit has the fee 0 unless the return is above 0.
  pub get_x1000_game_result_lem :
      (game : X1000Game D) (platform_fee start_price end_price : D) (bet : X1000Bet D)
      (bets : List (X1000Bet D))
      → game.bets ≡ bet ∷ bets
      → game.start_price ≡ some start_price
      → game.end_price ≡ some end_price
      → (r : ResolvedBet D) × (get_x1000_game_result game platform_fee ≡ ok r)
        × (units (minus_hundred {D = D}) ≤ℤ units r.roi)
        × (units r.outcome ≡ units bet.amount +ℤ units r.pnl)
        × ((is_pnl_fee bet.fee_type ≡ false)
            ⊎ ((greater_than r.roi (dec.from_ℕ 0) ≡ true) ⊎ (r.fee ≡ some (dec.from_ℕ 0))))
  unfolding get_x1000_game_result resolve_x1000 resolve_priced
  get_x1000_game_result_lem game platform_fee start_price end_price bet bets placed opened closed =
      (
        resolve_priced platform_fee bet start_price end_price,
        rw (placed, opened, closed) refl,
        roi_of-bound bet start_price end_price,
        resolve_priced-outcome platform_fee bet start_price end_price,
        priced_fee bet platform_fee (roi_of bet start_price end_price),
      )
