-- ===== src/Rounds/Repository.antt =====
-- The repositories of the workers: apps/up-down-worker, apps/bulls-eye-worker and apps/setups-worker,
-- each src/infrastructure/database/repositories. What is the same text in the three is one definition.
use backend_showcase.Prelude.{String, Bool, true, false, List, [], ◌∷◌}
use backend_showcase.Ledger.Result.{ok}
use backend_showcase.Ledger.Action.{Action, ◌>>=◌}
use backend_showcase.Ledger.GamesRewards.{GameState}
use backend_showcase.Games.Bet.{GameBet, BetResult}
use backend_showcase.Rounds.Tables.{Round, Tables, update_game, update_bet, update_many}

abbrev pub is_game_open : GameState → Bool
is_game_open GameState.open_game = true
is_game_open _ = false

abbrev pub is_game_in_progress : GameState → Bool
is_game_in_progress GameState.in_progress = true
is_game_in_progress _ = false

abbrev pub is_game_close : GameState → Bool
is_game_close GameState.close = true
is_game_close _ = false

abbrev pub is_game_in_pending : GameState → Bool
is_game_in_pending GameState.pending = true
is_game_in_pending _ = false

-- `state: { in: [INPROGRESS, OPEN] }`
abbrev pub is_active : GameState → Bool
is_active GameState.in_progress = true
is_active GameState.open_game = true
is_active _ = false

-- no condition on the state
abbrev pub any_state : GameState → Bool
any_state _ = true

abbrev pub is_bet_open : BetResult → Bool
is_bet_open BetResult.open_bet = true
is_bet_open _ = false

-- `result: { in: [INPROGRESS, OPEN] }`
abbrev pub is_bet_active : BetResult → Bool
is_bet_active BetResult.in_progress = true
is_bet_active BetResult.open_bet = true
is_bet_active _ = false

abbrev pub is_bet_pending : BetResult → Bool
is_bet_pending BetResult.pending = true
is_bet_pending _ = false

module _ {D : Type 0} where
  abbrev pub with_result : BetResult → GameBet D → GameBet D
  with_result result bet = record bet { result = result }

  -- the columns that `moveBetToCloseState` sets
  abbrev pub with_outcome : GameBet D → GameBet D → GameBet D
  with_outcome resolved bet = record bet {
    multiplier = resolved.multiplier;
    result = resolved.result;
    fee = resolved.fee;
    outcome = resolved.outcome;
    pnl = resolved.pnl;
  }

module _ {S D : Type 0} (db : Tables S D) where
  -- Both writes of a move: of the bets, and of the game.
  unfoldable pub move_bets_and_game :
      (GameState → Bool)
      → String
      → (BetResult → Bool)
      → BetResult
      → (GameState → Bool)
      → (Round D → Round D)
      → Action S (Round D)
  move_bets_and_game unique game_id from to allowed f s =
      update_game db unique game_id allowed f (update_many db game_id from (with_result to) s)

module _ {S D : Type 0} (db : Tables S D) (with_outcome : GameBet D → GameBet D → GameBet D) where
  -- `moveBetToCloseState`, which sets these columns
  unfoldable pub move_bet_to_close_state : GameBet D → Action S (Unit {0})
  move_bet_to_close_state resolved =
      update_bet db resolved.id is_bet_pending (with_outcome resolved)

  -- `Promise.all` of the moves of the bets: one after the other, until one throws.
  unfoldable pub close_each : List (GameBet D) → Action S (Unit {0})
  close_each [] s = (ok tt, s)
  close_each (b ∷ bets) s = (move_bet_to_close_state b >>= λ closed. close_each bets) s
