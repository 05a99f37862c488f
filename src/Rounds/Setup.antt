-- ===== src/Rounds/Setup.antt =====
-- apps/setups-worker/src/infrastructure/database/repositories/setup.repository.ts and
-- modules/games-finalizer of the same worker.
pub mod Heap
pub mod Order
pub mod Worker
pub mod Steps
use backend_showcase.Prelude.{
  ℕ, String, Bool, true, false, Option, none, some, List, [], ◌∷◌, ◌++◌, length, if◌then◌else◌,
}
use backend_showcase.Decimal.{Decimal}
use backend_showcase.Ledger.Result.{Result, ok, err, record_not_found}
use backend_showcase.Ledger.Action.{Action, pure, in_transaction, ◌>>=◌}
use backend_showcase.Ledger.GamesRewards.{GameState}
use backend_showcase.Games.Bet.{GameBet, BetResult}
use backend_showcase.Games.Setup.{SetupGame, SetupResult, SetupResults, get_setup_game_result}
use backend_showcase.Rounds.Tables.{Round, Tables, find_game, find_bets, update_game}
use backend_showcase.Rounds.Repository.{
  is_game_open, is_game_in_pending, is_active, is_bet_open, is_bet_active, with_outcome,
  move_bets_and_game, move_bet_to_close_state,
}

-- There is no unique index on the states of setups.
abbrev pub no_unique_index : GameState → Bool
no_unique_index _ = false

module _ {S D : Type 0} (db : Tables S D) where
  unfoldable pub move_game_to_in_progress_state : String → Action S (Round D)
  move_game_to_in_progress_state game_id = in_transaction (
      move_bets_and_game db no_unique_index game_id is_bet_open BetResult.in_progress is_game_open
        (λ g. record g { state = GameState.in_progress }))

  unfoldable pub move_game_to_pending_state : String → Option D → Action S (Round D)
  move_game_to_pending_state game_id end_price = in_transaction (
      move_bets_and_game db no_unique_index game_id is_bet_active BetResult.pending is_active
        (λ g. record g { state = GameState.pending; end_price = end_price }))

  unfoldable pub move_game_to_close_state : String → SetupResult → D → Action S (Round D)
  move_game_to_close_state game_id result owner_profit =
      update_game db no_unique_index game_id is_game_in_pending (λ g. record g {
        state = GameState.close;
        owner_profit = some owner_profit;
        result = some result;
      })

  unfoldable pub get_bets_count_by_game_id : String → S → ℕ
  get_bets_count_by_game_id game_id s = length (find_bets db game_id s)

  abbrev pub pending_only : Option (Round D) → Result (Round D)
  pending_only none = err record_not_found
  pending_only (some game) = if is_game_in_pending game.state then ok game else err record_not_found

  -- `findFirstOrThrow`
  unfoldable pub get_pending_game_by_id : String → Action S (Round D)
  get_pending_game_by_id game_id s = (pending_only (find_game db game_id s), s)

  -- The moves of the bets, which are not awaited: the database does them one after the other before
  -- the next write, and an error of one is not seen.
  unfoldable pub close_unseen : List (GameBet D) → S → S
  close_unseen [] s = s
  close_unseen (b ∷ bets) s = close_unseen bets (move_bet_to_close_state db with_outcome b s).1

module _ {D : Type 0} where
  -- the game with its bets, as `getSetupGameResult` reads it
  abbrev pub with_bets : D → Round D → List (GameBet D) → SetupGame D
  with_bets platform_fee game bets = record {
    owner_id = game.owner_id;
    id = game.id;
    end_price = game.end_price;
    take_profit = game.take_profit;
    stop_loss = game.stop_loss;
    platform_fee = platform_fee;
    bets = bets;
    is_long = game.is_long;
  }

  -- `[...winners, ...losers, ...rejects]`
  abbrev pub resolved_bets : SetupResults D → List (GameBet D)
  resolved_bets r = r.winners ++ (r.losers ++ r.rejects)

module _ {S D : Type 0} ⦃dec : Decimal D⦄ (db : Tables S D) where
  abbrev pub close_with : String → SetupResults D → Action S (Round D)
  close_with game_id r s =
      move_game_to_close_state db game_id r.result r.influencer.pnl
        (close_unseen db (resolved_bets r) s)

  -- `moveGameToCloseState` of the finalizer
  unfoldable pub finalize_game : D → String → Action S (Round D)
  finalize_game platform_fee game_id = do
    game ← get_pending_game_by_id db game_id
    (λ s.
        in_transaction
          (close_with game_id
            (get_setup_game_result (with_bets platform_fee game (find_bets db game_id s))))
          s)
