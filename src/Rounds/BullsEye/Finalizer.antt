-- ===== src/Rounds/BullsEye/Finalizer.antt =====
-- apps/bulls-eye-worker/src/modules/games-finalizer/bullsEyeGamesResolver.service.ts
use backend_showcase.Prelude.{String, Option, none, some, List, [], ◌∷◌, ◌++◌, if◌then◌else◌}
use backend_showcase.Decimal.{Decimal}
use backend_showcase.Ledger.Result.{Result, ok, err}
use backend_showcase.Ledger.Action.{Action, in_transaction, ◌>>=◌}
use backend_showcase.Games.Bet.{GameBet, Results}
use backend_showcase.Games.BullsEye.{BullsEyeGame, WinnerCoefficients, get_bulls_eye_game_result}
use backend_showcase.Rounds.Tables.{Round, Tables, find_game, find_bets}
use backend_showcase.Rounds.Repository.{is_game_in_pending, close_each}
use backend_showcase.Rounds.Worker.{Handled, done, exited, Worker, after_move}
use backend_showcase.Rounds.BullsEye.{with_place, move_game_to_close_state}

-- `platformFee`, and of `gameConfig` what the results are computed with
pub record Rates (D : Type 0) : Type 0 where
  pub platform_fee : D
  pub accuracy_level : D
  pub exact_winner_coefficients : WinnerCoefficients D
  pub default_winner_coefficients : WinnerCoefficients D

module _ {D : Type 0} where
  -- the game with its bets, as `getBullsEyeGameResult` reads it
  abbrev pub with_bets : Rates D → Round D → List (GameBet D) → BullsEyeGame D
  with_bets rates game bets = record {
    bets = bets;
    end_price = game.end_price;
    accuracy_level = rates.accuracy_level;
    platform_fee = rates.platform_fee;
    exact_winner_coefficients = rates.exact_winner_coefficients;
    default_winner_coefficients = rates.default_winner_coefficients;
  }

  -- `[...losers, ...rejects, ...winners]`
  abbrev pub resolved_bets : Results D → List (GameBet D)
  resolved_bets r = r.losers ++ (r.rejects ++ r.winners)

  -- `winner ? winner.ownerId : null` of the first winner
  abbrev pub winner_id_of : List (GameBet D) → Option String
  winner_id_of [] = none
  winner_id_of (winner ∷ winners) = some winner.owner_id

  abbrev pub winner_bet_id_of : List (GameBet D) → Option String
  winner_bet_id_of [] = none
  winner_bet_id_of (winner ∷ winners) = some winner.id

module _ {S D : Type 0} ⦃dec : Decimal D⦄ (db : Tables S D) where
  unfoldable pub close_bulls_eye_game : String → Results D → Action S (Round D)
  close_bulls_eye_game game_id r = in_transaction (do
    closed ← close_each db with_place (resolved_bets r)
    move_game_to_close_state db game_id (winner_id_of r.winners) (winner_bet_id_of r.winners))

  -- If the computation of the results throws, the application restarts.
  abbrev pub close_resolved : String → Worker S D → Result (Results D) → Handled × Worker S D
  close_resolved game_id w (err e) = (exited, w)
  close_resolved game_id w (ok r) = after_move w (close_bulls_eye_game game_id r w.tables)

  -- Any other state, and a game that is not there, are only logged.
  abbrev pub resolve_bulls_eye_found :
      Rates D → String → Worker S D → Option (Round D) → Handled × Worker S D
  resolve_bulls_eye_found rates game_id w none = (done, w)
  resolve_bulls_eye_found rates game_id w (some game) =
      if is_game_in_pending game.state
      then close_resolved game_id w
          (get_bulls_eye_game_result (with_bets rates game (find_bets db game_id w.tables)))
      else (done, w)

  unfoldable pub resolve_bulls_eye_game : Rates D → String → Worker S D → Handled × Worker S D
  resolve_bulls_eye_game rates game_id w =
      resolve_bulls_eye_found rates game_id w (find_game db game_id w.tables)

  -- `onBullsEyeGameChanged` of the finalizer
  unfoldable pub on_bulls_eye_game_pending : Rates D → Round D → Worker S D → Handled × Worker S D
  on_bulls_eye_game_pending rates event w =
      if is_game_in_pending event.state then resolve_bulls_eye_game rates event.id w else (done, w)
