-- ===== src/Ledger/GamesRewards/OneVsOne.antt =====
-- A decided 1vs1 game from its results (libs/core/src/games-helpers/one-vs-one.helper.ts) to the ledger
-- (apps/ledger/src/modules/games-rewards/gamesRewards.service.ts).
use backend_showcase.Prelude.{◌≡◌, ◌≢◌, String, true, some, List, [], ◌∷◌, ◌++◌, map, inl, inr}
use backend_showcase.Decimal.{Decimal}
use backend_showcase.Decimal.Exact.{IsExact, exact_laws}
use backend_showcase.Ledger.Result.{ok, err, journal_is_not_balanced}
use backend_showcase.Ledger.Database.{Database}
use backend_showcase.Ledger.GamesRewards.{ClosedGame, StoredBet, bets_with, get_game_results}
use backend_showcase.Ledger.History.{Command, perform}
use backend_showcase.Ledger.Balanced.Settlement.{IsFair}
use backend_showcase.Ledger.Balanced.Commands.{perform-never_unbalanced}
use backend_showcase.Games.Bet.{GameBet}
use backend_showcase.Games.OneVsOne.{
  OneVsOneGame, OneVsOneResults, win_bet, lose_bet, decided, get_one_vs_one_game_results,
}
use backend_showcase.Games.OneVsOne.Conserved.{
  IsPriced, or_zero, get_one_vs_one_game_results-decided,
}

module _ {D : Type 0} ⦃dec : Decimal D⦄ where
  -- the row of a bet with its result, as the settlement reads it
  abbrev pub stored : GameBet D → StoredBet D
  stored b = record {
    result = b.result;
    bet = record {
      id = b.id;
      owner_id = b.owner_id;
      amount = b.amount;
      outcome = or_zero b.outcome;
      pnl = or_zero b.pnl;
      fee = b.fee;
    };
  }

  abbrev pub rows_of_results : OneVsOneResults D → List (StoredBet D)
  rows_of_results r = map stored (r.winners ++ r.losers)

module _ {D : Type 0} ⦃dec : Decimal D⦄ ⦃exact : IsExact dec⦄ where
  decided-IsFair :
      (id : String) (fee : D) (winner loser : GameBet D)
      → IsFair (get_game_results id (rows_of_results (decided fee winner loser)))
  unfolding get_game_results bets_with decided win_bet lose_bet
  decided-IsFair id fee winner loser = omega exact_laws

module _ {S D : Type 0} ⦃dec : Decimal D⦄ ⦃exact : IsExact dec⦄ (db : Database S D) where
  -- A closed 1vs1 game of two bets with an end price, where both players have named a price if the
  -- game goes by the nearest price, has results, and when the rewards are given for the rows of its
  -- bets the journal is never refused as unbalanced.
  pub one_vs_one-never_unbalanced :
      (game : OneVsOneGame D) (platform_fee end_price : D) (player1 player2 : GameBet D)
      (closed_game : ClosedGame D)
      → game.bets ≡ player1 ∷ player2 ∷ []
      → game.end_price ≡ some end_price
      → (game.is_exact ≡ true → IsPriced player1 × IsPriced player2)
      → (r : OneVsOneResults D) × (get_one_vs_one_game_results game platform_fee ≡ ok r)
        × ((s : S)
            → (perform db (Command.reward_one_vs_one closed_game (rows_of_results r)) s).0
              ≢ err journal_is_not_balanced)
  one_vs_one-never_unbalanced game platform_fee end_price player1 player2 closed_game two closed
        priced =
      elim (get_one_vs_one_game_results-decided game platform_fee end_price player1 player2 two
        closed priced) [
          | inl first ↦ (
            decided platform_fee player1 player2,
            first,
            perform-never_unbalanced db
                (Command.reward_one_vs_one closed_game
                  (rows_of_results (decided platform_fee player1 player2)))
                (decided-IsFair closed_game.id platform_fee player1 player2),
          )
          | inr second ↦ (
            decided platform_fee player2 player1,
            second,
            perform-never_unbalanced db
                (Command.reward_one_vs_one closed_game
                  (rows_of_results (decided platform_fee player2 player1)))
                (decided-IsFair closed_game.id platform_fee player2 player1),
          )
        ]
