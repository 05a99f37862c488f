-- ===== src/Rounds/UpDown/Finalizer.antt =====
-- apps/up-down-worker/src/modules/games-finalizer/upDownGamesResolver.service.ts
use backend_showcase.Prelude.{String, Option, none, some, List, ◌++◌, if◌then◌else◌}
use backend_showcase.Decimal.{Decimal}
use backend_showcase.Ledger.Action.{Action, in_transaction, ◌>>=◌}
use backend_showcase.Games.Bet.{GameBet, Results}
use backend_showcase.Rounds.Tables.{Round, Tables, find_game, find_bets}
use backend_showcase.Rounds.Repository.{is_game_in_pending, with_outcome, close_each}
use backend_showcase.Games.UpDown.{UpDownGame, get_up_down_game_results}
use backend_showcase.Rounds.UpDown.{move_game_to_close_state}
use backend_showcase.Rounds.Worker.{Handled, done, Worker, after_move}

module _ {D : Type 0} where
  -- the game with its bets, as `getUpDownGameResults` reads it
  abbrev pub with_bets : Round D → List (GameBet D) → UpDownGame D
  with_bets game bets = record {
    start_price = game.start_price;
    end_price = game.end_price;
    is_up = game.is_up;
    bets = bets;
  }

  -- `[...losers, ...rejects, ...winners]`
  abbrev pub resolved_bets : Results D → List (GameBet D)
  resolved_bets r = r.losers ++ (r.rejects ++ r.winners)

module _ {S D : Type 0} ⦃dec : Decimal D⦄ (db : Tables S D) where
  unfoldable pub close_game : String → List (GameBet D) → Action S (Round D)
  close_game game_id bets =
      in_transaction
        (do closed ← close_each db with_outcome bets; move_game_to_close_state db game_id)

  -- Any other state, and a game that is not there, are only logged.
  abbrev pub resolve_found : D → String → Worker S D → Option (Round D) → Handled × Worker S D
  resolve_found platform_fee game_id w none = (done, w)
  resolve_found platform_fee game_id w (some game) =
      if is_game_in_pending game.state
      then after_move w (
          close_game game_id
            (resolved_bets (
              get_up_down_game_results (with_bets game (find_bets db game_id w.tables))
                platform_fee))
            w.tables)
      else (done, w)

  unfoldable pub resolve_game : D → String → Worker S D → Handled × Worker S D
  resolve_game platform_fee game_id w =
      resolve_found platform_fee game_id w (find_game db game_id w.tables)

  -- `onUpDownGameChanged` of the finalizer
  unfoldable pub on_up_down_game_pending : D → Round D → Worker S D → Handled × Worker S D
  on_up_down_game_pending platform_fee event w =
      if is_game_in_pending event.state then resolve_game platform_fee event.id w else (done, w)
