-- ===== src/Rounds/UpDown.antt =====
-- apps/up-down-worker/src/infrastructure/database/repositories/upDown.repository.ts
pub mod Worker
pub mod Finalizer
pub mod Closed
pub mod Life
use backend_showcase.Prelude.{
  String, Bool, true, false, Option, none, some, List, [], ◌∷◌, ◌++◌, if◌then◌else◌,
}
use backend_showcase.Decimal.{Decimal}
use backend_showcase.Ledger.Result.{
  LedgerError, Result, ok, err, record_not_found, unique_constraint,
}
use backend_showcase.Ledger.Action.{Action, pure, lift, in_transaction, ◌>>=◌}
use backend_showcase.Ledger.GamesRewards.{GameState}
use backend_showcase.Games.Bet.{GameBet, BetResult, Results}
use backend_showcase.Rounds.Tables.{Round, Tables, find_game, find_bets, is_taken, update_game}
use backend_showcase.Rounds.Repository.{
  is_game_open, is_game_in_progress, is_game_close, is_game_in_pending, is_active, any_state,
  is_bet_open, is_bet_active, is_bet_pending, with_outcome, move_bets_and_game, close_each,
}
use backend_showcase.Rounds.Worker.{has_unique_index}
use backend_showcase.Games.UpDown.{UpDownGame, get_up_down_game_results}

module _ {S D : Type 0} (db : Tables S D) where
  unfoldable pub move_game_to_in_progress_state : String → D → Action S (Round D)
  move_game_to_in_progress_state game_id start_price = in_transaction (
      move_bets_and_game db has_unique_index game_id is_bet_open BetResult.in_progress is_game_open
        (λ g. record g { state = GameState.in_progress; start_price = some start_price }))

  unfoldable pub move_game_to_pending_state : String → Option D → Option Bool → Action S (Round D)
  move_game_to_pending_state game_id end_price is_up = in_transaction (
      move_bets_and_game db has_unique_index game_id is_bet_active BetResult.pending any_state
        (λ g. record g { state = GameState.pending; end_price = end_price; is_up = is_up }))

  unfoldable pub move_game_to_close_state : String → Action S (Round D)
  move_game_to_close_state game_id =
      update_game db has_unique_index game_id is_game_in_pending
        (λ g. record g { state = GameState.close })
