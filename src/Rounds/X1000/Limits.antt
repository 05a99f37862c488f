-- ===== src/Rounds/X1000/Limits.antt =====
-- The limits of an x1000 bet as an order of whole numbers, and the condition by which
-- apps/x1000-worker/src/module/game/workers/x1000Prices.worker.ts finds the bets that a price ends.
use backend_showcase.Prelude.{
  ◌≡◌, refl, sym, ◌∙◌, ap, String, Bool, true, false, not, ◌&&◌, ◌||◌, List, [], ◌∷◌, Option, none,
  some, filter, if◌then◌else◌, inl, inr, Bool-cases, arith, str_eq,
}
use backend_showcase.Prelude.Int.{ℤ, ltb_ℤ, leb_ℤ}
use backend_showcase.Decimal.{Decimal}
use backend_showcase.Decimal.Exact.{IsExact}
use backend_showcase.Rounds.X1000.{X1000Row, X1000BetRow, is_in_progress}
use backend_showcase.Rounds.X1000.Worker.{
  is_triggered, leaves_range, is_burned, is_at_most, is_at_least,
}

-- the order of the units, whichever way it is asked
leb_not_ltb : (a b : ℤ) → leb_ℤ a b ≡ not (ltb_ℤ b a)
leb_not_ltb a b = ground arith

pub false_of_not : (b : Bool) → not b ≡ true → b ≡ false
false_of_not b h = ground arith

one_test : (p i : Bool) → (not p || i) ≡ not (p && not i)
one_test p i = ground arith

pub true_of_not : (b : Bool) → not b ≡ false → b ≡ true
true_of_not b h = ground arith

three_tests : (p a b c : Bool) → (p && ((not a || not b) || not c)) ≡ (p && not (a && (b && c)))
three_tests p a b c = ground arith

module _ {D : Type 0} {dec : Decimal D} (exact : IsExact dec) where
  -- A limit that is not set is never reached.
  abbrev pub is_below : ℤ → Option D → Bool
  is_below e none = true
  is_below e (some x) = ltb_ℤ e (exact.units x)

  abbrev pub is_above : ℤ → Option D → Bool
  is_above e none = true
  is_above e (some x) = ltb_ℤ (exact.units x) e

  -- A price lies strictly between the limits of a bet: of a long one below its take profit and above
  -- its stop loss and its burn price, of a short one the other way round.
  abbrev pub is_inside : ℤ → X1000BetRow D → Bool
  is_inside e row =
      if row.bet.is_long
      then is_below e row.take_profit && (is_above e row.stop_loss && is_above e row.burn_price)
      else is_above e row.take_profit && (is_below e row.stop_loss && is_below e row.burn_price)

  -- every bet that is in progress has the price strictly between its limits
  abbrev pub all_inside : ℤ → List (X1000BetRow D) → Bool
  all_inside e [] = true
  all_inside e (row ∷ rows) =
      (not (is_in_progress row.result) || is_inside e row) && all_inside e rows

module _ {D : Type 0} where
  -- the bets of a game
  abbrev pub bets_in : String → List (X1000BetRow D) → List (X1000BetRow D)
  bets_in id rows = filter (λ (row : X1000BetRow D). str_eq row.game_id id) rows

  -- the game with this id
  abbrev pub games_in : String → List (X1000Row D) → List (X1000Row D)
  games_in id rows = filter (λ (g : X1000Row D). str_eq g.id id) rows

module _ {D : Type 0} ⦃dec : Decimal D⦄ (exact : IsExact dec) where
  at_most-is_below :
      (o : Option D) (price : D) → is_at_most o price ≡ not (is_below exact (exact.units price) o)
  unfolding is_at_most
  at_most-is_below none price = refl
  at_most-is_below (some x) price =
      exact.less_than_or_equal_to-eq x price ∙ leb_not_ltb (exact.units x) (exact.units price)

  at_least-is_above :
      (o : Option D) (price : D) → is_at_least o price ≡ not (is_above exact (exact.units price) o)
  unfolding is_at_least
  at_least-is_above none price = refl
  at_least-is_above (some x) price =
      exact.less_than_or_equal_to-eq price x ∙ leb_not_ltb (exact.units price) (exact.units x)

  pub triggered-is_inside :
      (price : D) (row : X1000BetRow D)
      → is_triggered price row
        ≡ (is_in_progress row.result && not (is_inside exact (exact.units price) row))
  unfolding is_triggered leaves_range is_burned
  triggered-is_inside price row = elim (Bool-cases row.bet.is_long) [
    | inl long ↦ rw long (
        rw
          (
            at_most-is_below row.take_profit price,
            at_least-is_above row.stop_loss price,
            at_least-is_above row.burn_price price,
          )
          (three_tests _ _ _ _))
    | inr short ↦ rw short (
        rw
          (
            at_least-is_above row.take_profit price,
            at_most-is_below row.stop_loss price,
            at_most-is_below row.burn_price price,
          )
          (three_tests _ _ _ _))
  ]

  pub test-triggered :
      (price : D) (row : X1000BetRow D)
      → (not (is_in_progress row.result) || is_inside exact (exact.units price) row)
        ≡ not (is_triggered price row)
  test-triggered price row =
      one_test (is_in_progress row.result) (is_inside exact (exact.units price) row)
      ∙ ap not (sym (triggered-is_inside price row))
