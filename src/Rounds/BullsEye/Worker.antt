-- ===== src/Rounds/BullsEye/Worker.antt =====
-- apps/bulls-eye-worker/src/modules/game-worker/bullsEyeGame.worker.ts. The price that the price
-- service gives is an argument.
use backend_showcase.Prelude.{ℕ, ◌+◌, ◌*◌, String, Option, none, some}
use backend_showcase.Decimal.{Decimal}
use backend_showcase.Ledger.Action.{Action}
use backend_showcase.Rounds.Tables.{Round, Tables}
use backend_showcase.Rounds.Worker.{
  Handled, exited, Worker, after_move, if_done, or_exit, after_create, on_changed, move_all,
  new_game_at, create_game, get_active_games, start_price_set,
}
use backend_showcase.Rounds.BullsEye.{move_game_to_in_progress_state, move_game_to_pending_state}

-- `gameConfig` (infrastructure/config/local.config.ts)
pub record BullsEyeSettings : Type 0 where
  pub asset : String
  pub open_timeframe_seconds : ℕ
  pub in_progress_timeframe_seconds : ℕ

abbrev pub game_config : BullsEyeSettings
game_config = record {
  asset = "BTC";
  open_timeframe_seconds = 30;
  in_progress_timeframe_seconds = 90;
}

module _ {S D : Type 0} ⦃dec : Decimal D⦄ (db : Tables S D) where
  -- Without a price from the price service the application restarts.
  unfoldable pub start_bulls_eye_game_callback :
      String → Option D → Worker S D → Handled × Worker S D
  start_bulls_eye_game_callback game_id none w = (exited, w)
  start_bulls_eye_game_callback game_id (some price) w =
      after_move w (move_game_to_in_progress_state db game_id price w.tables)

  -- Without a start price the game ends without a price.
  unfoldable pub finish_bulls_eye_with :
      String → Option D → Option D → Worker S D → Handled × Worker S D
  finish_bulls_eye_with game_id none price w =
      after_move w (move_game_to_pending_state db game_id none w.tables)
  finish_bulls_eye_with game_id (some start_price) none w = (exited, w)
  finish_bulls_eye_with game_id (some start_price) (some price) w =
      after_move w (move_game_to_pending_state db game_id (some price) w.tables)

  unfoldable pub finish_bulls_eye_game_callback :
      String → Option D → Option D → Worker S D → Handled × Worker S D
  finish_bulls_eye_game_callback game_id start_price price w =
      finish_bulls_eye_with game_id (start_price_set start_price) price w

  -- the data of a new game
  abbrev pub new_bulls_eye_game : BullsEyeSettings → ℕ → String → Round D
  new_bulls_eye_game settings now id =
      new_game_at settings.asset now (1000 * settings.open_timeframe_seconds)
        (1000 * settings.open_timeframe_seconds + 1000 * settings.in_progress_timeframe_seconds) id

  unfoldable pub on_bulls_eye_game_closed :
      BullsEyeSettings → ℕ → (String → Action S (Unit {0})) → Worker S D → Handled × Worker S D
  on_bulls_eye_game_closed settings now create_account w =
      after_create w (create_game db (new_bulls_eye_game settings now) create_account w.tables)

  -- `onBullsEyeGameChanged` of the worker
  unfoldable pub on_bulls_eye_game_changed :
      BullsEyeSettings
      → ℕ
      → (String → Action S (Unit {0}))
      → Round D
      → Worker S D
      → Handled × Worker S D
  on_bulls_eye_game_changed settings now create_account event w =
      on_changed (on_bulls_eye_game_closed settings now create_account) event event.state w

  -- `moveAllOpenGamesToPendingState`
  unfoldable pub move_all_open_games_to_pending_state : Worker S D → Handled × Worker S D
  move_all_open_games_to_pending_state w =
      move_all (λ id. move_game_to_pending_state db id none) (get_active_games db w.tables) w

  -- `onModuleInit`, when the application starts: any error restarts it.
  unfoldable pub on_module_init :
      BullsEyeSettings → ℕ → (String → Action S (Unit {0})) → Worker S D → Handled × Worker S D
  on_module_init settings now create_account w = or_exit (
      if_done (move_all_open_games_to_pending_state w)
        (on_bulls_eye_game_closed settings now create_account))
