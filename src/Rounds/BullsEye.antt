-- ===== src/Rounds/BullsEye.antt =====
-- apps/bulls-eye-worker/src/infrastructure/database/repositories/bullsEyeGame.repository.ts
pub mod Worker
pub mod Finalizer
pub mod Closed
pub mod Life
use backend_showcase.Prelude.{String, Option, some}
use backend_showcase.Ledger.Action.{Action, in_transaction}
use backend_showcase.Ledger.GamesRewards.{GameState}
use backend_showcase.Games.Bet.{GameBet, BetResult}
use backend_showcase.Rounds.Tables.{Round, Tables, update_game}
use backend_showcase.Rounds.Repository.{
  is_game_open, is_game_in_pending, any_state, is_bet_open, is_bet_active, with_outcome,
  move_bets_and_game,
}
use backend_showcase.Rounds.Worker.{has_unique_index}

module _ {D : Type 0} where
  -- the columns that `moveBetToCloseState` sets
  abbrev pub with_place : GameBet D → GameBet D → GameBet D
  with_place resolved bet = record (with_outcome resolved bet) {
    place = resolved.place;
    is_exact = resolved.is_exact;
  }

module _ {S D : Type 0} (db : Tables S D) where
  unfoldable pub move_game_to_in_progress_state : String → D → Action S (Round D)
  move_game_to_in_progress_state game_id start_price = in_transaction (
      move_bets_and_game db has_unique_index game_id is_bet_open BetResult.in_progress is_game_open
        (λ g. record g { state = GameState.in_progress; start_price = some start_price }))

  unfoldable pub move_game_to_pending_state : String → Option D → Action S (Round D)
  move_game_to_pending_state game_id end_price = in_transaction (
      move_bets_and_game db has_unique_index game_id is_bet_active BetResult.pending any_state
        (λ g. record g { state = GameState.pending; end_price = end_price }))

  unfoldable pub move_game_to_close_state :
      String → Option String → Option String → Action S (Round D)
  move_game_to_close_state game_id winner_id winner_bet_id =
      update_game db has_unique_index game_id is_game_in_pending (λ g. record g {
        state = GameState.close;
        winner_id = winner_id;
        winner_bet_id = winner_bet_id;
      })
