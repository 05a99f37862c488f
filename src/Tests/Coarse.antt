-- ===== src/Tests/Coarse.antt =====
-- Whole numbers of which only the tens are doubles, and a setup whose limits are not.
use backend_showcase.Prelude.{true, false, [], ◌∷◌, ◌*◌, ◌/◌, ◌≢◌, refl, List, arith}
use backend_showcase.Prelude.Int.{ℤ, pos, negsuc, ◌≤ℤ◌}
use backend_showcase.Decimal.{Decimal}
use backend_showcase.Decimal.Exact.{IsExact}
use backend_showcase.Ledger.GamesRewards.{GameState}
use backend_showcase.Games.Bet.{GameBet, BetResult}
use backend_showcase.Games.Setup.{SetupResult, get_setup_game_result}
use backend_showcase.Rounds.Tables.{Round}
use backend_showcase.Rounds.Setup
use backend_showcase.Rounds.Setup.Heap.{is_due}
use backend_showcase.Rounds.Setup.Heap.Decided.{IsMonotone, ended_at, get_games_by_price-decided}
use backend_showcase.Tests.Whole.{whole}
use backend_showcase.Tests.Store.{round_in, bet_in}

abbrev tens : ℤ → ℤ
tens (pos n) = pos (10 * (n / 10))
tens (negsuc n) = negsuc n

abbrev coarse : Decimal ℤ
coarse = record whole { to_number = tens }

abbrev coarse-IsExact : IsExact coarse
coarse-IsExact = record {
  units = λ a. a;
  units-zero = refl;
  units-tolerance = omega arith;
  units-add = λ a b. refl;
  units-sub = λ a b. refl;
  units-negated = λ a. refl;
  units-abs = λ a. refl;
  less_than-eq = λ a b. refl;
  less_than_or_equal_to-eq = λ a b. refl;
}

tens-monotone : (a b : ℤ) → a ≤ℤ b → tens a ≤ℤ tens b
tens-monotone (pos n) (pos m) h = omega arith
tens-monotone (pos n) (negsuc m) h = omega arith
tens-monotone (negsuc n) (pos m) h = omega arith
tens-monotone (negsuc n) (negsuc m) h = h

coarse-IsMonotone : IsMonotone coarse-IsExact
coarse-IsMonotone a b h = tens-monotone a b h

-- The heap has 120 and 80 as the limits of this setup.
abbrev setup : Round ℤ
setup = record (round_in GameState.in_progress) {
  take_profit = pos 125;
  stop_loss = pos 81;
  is_long = true;
  end_at = 20;
}

abbrev two_sides : List (GameBet ℤ)
two_sides = bet_in BetResult.pending "a" true 105 ∷ bet_in BetResult.pending "b" false 90 ∷ []

get_games_by_price-decided_example :
    (get_setup_game_result ⦃dec = coarse⦄
      (Setup.with_bets (pos 1) (ended_at (pos 130) setup) two_sides)).result
    ≢ SetupResult.rejected
unfolding is_due
get_games_by_price-decided_example =
    get_games_by_price-decided ⦃dec = coarse⦄ ⦃exact = coarse-IsExact⦄ (pos 130) 7 setup (pos 1)
      two_sides coarse-IsMonotone refl refl refl
