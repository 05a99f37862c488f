-- ===== src/Rounds/X1000.antt =====
-- apps/x1000/src/module/game/services/x1000Bets.service.ts, and `checkAddX1000BetParams` of
-- libs/core/src/games-helpers/x1000.helpers.ts. The price that the price service gives is an argument,
-- and so are the operations of the ledger.
pub mod Rows
pub mod Worker
pub mod Resolver
pub mod Answers
pub mod Placed
pub mod Single
pub mod Quiet
pub mod Steps
pub mod Ended
pub mod Ready
pub mod Closed
pub mod Limits
pub mod Triggered
unfoldable pub use Rows.*
use backend_showcase.Prelude.{
  ℕ, suc, String, Bool, true, false, not, ◌&&◌, ◌||◌, ◌≡◌, Option, none, some, List, [], ◌∷◌, map,
  ltb, if◌then◌else◌, str_eq,
}
use backend_showcase.Decimal.{Decimal, greater_than_or_equal_to}
use backend_showcase.Ledger.Result.{LedgerError, Result, ok, err, record_not_found}
use backend_showcase.Ledger.Action.{Action, pure, in_transaction, ◌>>=◌}
use backend_showcase.Ledger.GamesRewards.{GameState}
use backend_showcase.Games.Bet.{BetResult, FeeType}
use backend_showcase.Games.X1000.{X1000Bet, is_pnl_fee, calculate_x1000_bet_burn_price}

module _ {D : Type 0} ⦃dec : Decimal D⦄ where
  -- `payload.takeProfit && …`: 0 counts as none.
  unfoldable pub is_set_and : Option D → (D → Bool) → Bool
  is_set_and none test = false
  is_set_and (some x) test = not (dec.equals x (dec.from_ℕ 0)) && test x

  -- `checkAddX1000BetParams`: the error, of which the later one is kept
  unfoldable pub check_add_x1000_bet_params : CreateBetParams D → D → Option Refusal
  check_add_x1000_bet_params params start_price =
      let bad_profit =
        if params.is_long
        then is_set_and params.take_profit (λ x. dec.less_than_or_equal_to x start_price)
        else is_set_and params.take_profit (λ x. greater_than_or_equal_to x start_price) in
      let bad_loss =
        if params.is_long
        then is_set_and params.stop_loss (λ x. greater_than_or_equal_to x start_price)
        else is_set_and params.stop_loss (λ x. dec.less_than_or_equal_to x start_price) in
      if bad_loss
      then some invalid_stop_loss
      else if bad_profit
      then some invalid_take_profit
      else none

  -- with `X1000_FLAT_FEE`
  unfoldable pub get_fee_amount : D → D → D → FeeType → D
  get_fee_amount flat_fee amount multiplier FeeType.flat_fee =
      dec.mul (dec.mul amount multiplier) (dec.mul flat_fee (dec.from_ℕ 2))
  get_fee_amount flat_fee amount multiplier FeeType.pnl_fee = dec.from_ℕ 0

  abbrev pub new_x1000_game : CreateBetParams D → D → String → X1000Row D
  new_x1000_game params start_price id = record {
    id = id;
    owner_id = params.user_id;
    state = GameState.in_progress;
    start_price = some start_price;
    end_price = none;
  }

  abbrev pub new_x1000_bet : D → CreateBetParams D → D → String → String → X1000BetRow D
  new_x1000_bet flat_fee params start_price game_id id = record {
    game_id = game_id;
    bet = record {
      id = id;
      owner_id = params.user_id;
      amount = params.amount;
      multiplier = params.multiplier;
      is_long = params.is_long;
      fee_type = params.fee_type;
      fee = some (get_fee_amount flat_fee params.amount params.multiplier params.fee_type);
    };
    result = BetResult.in_progress;
    start_price = start_price;
    end_price = none;
    take_profit = params.take_profit;
    stop_loss = params.stop_loss;
    burn_price = some (calculate_x1000_bet_burn_price start_price params.is_long params.multiplier);
    roi = none;
    outcome = none;
    pnl = none;
  }

-- `createBet` of the ledger: user, amount, game and bet
abbrev pub ChargeBet : Type 0 → Type 0 → Type 0
ChargeBet S D = String → D → String → String → Action S (Unit {0})

module _ {S D : Type 0} ⦃dec : Decimal D⦄ (db : X1000Tables S D) (flat_fee : D)
    (charge_bet : ChargeBet S D) where
  abbrev create_game_row : CreateBetParams D → D → Action S (X1000Row D)
  create_game_row params start_price s =
      let game = new_x1000_game params start_price (db.new_id s) in
      (ok game, db.write_games (game ∷ db.games s) s)

  abbrev create_bet_row : CreateBetParams D → D → String → Action S (X1000BetRow D)
  create_bet_row params start_price game_id s =
      let row = new_x1000_bet flat_fee params start_price game_id (db.new_id s) in
      (ok row, db.write_bets (row ∷ db.bets s) s)

  -- the transaction of `addBet`
  unfoldable pub place : CreateBetParams D → D → Action S (X1000Row D)
  place params start_price = in_transaction (do
    game ← create_game_row params start_price
    row ← create_bet_row params start_price game.id
    charged ←
        charge_bet params.user_id
          (dec.add (get_fee_amount flat_fee params.amount params.multiplier params.fee_type)
            params.amount)
          game.id row.bet.id
    pure game)

  abbrev pub answer_of : Result (X1000Row D) × S → Answer (X1000Row D) × S
  answer_of (ok game, s) = (accepted game, s)
  answer_of (err e, s) = (refused (failed e), s)

  abbrev pub place_checked : CreateBetParams D → D → Option Refusal → S → Answer (X1000Row D) × S
  place_checked params start_price (some refusal) s = (refused refusal, s)
  place_checked params start_price none s = answer_of (place params start_price s)

  -- `addBet` at the current price, where `COUNT_MAX_OPEN_GAMES_IN_TIME` is 1
  unfoldable pub add_bet : CreateBetParams D → D → S → Answer (X1000Row D) × S
  add_bet params current_price s =
      if ltb (count_opened params.user_id (db.bets s)) 1
      then place_checked params (dec.to_number current_price)
          (check_add_x1000_bet_params params (dec.to_number current_price)) s
      else (refused too_many_games, s)

module _ {S D : Type 0} (db : X1000Tables S D) where
  -- the transaction of `cashOut`
  unfoldable pub take_out : D → X1000BetRow D → Action S (Unit {0})
  take_out price found = in_transaction (do
    moved ←
        update_x1000_bet db found.bet.id
          (λ row. record row { result = BetResult.pending; end_price = some price })
    update_x1000_game db found.game_id
        (λ g. record g { state = GameState.pending; end_price = some price }))

  abbrev pub cashed_out : Result (Unit {0}) × S → Answer (Unit {0}) × S
  cashed_out (ok done, s) = (accepted done, s)
  cashed_out (err e, s) = (refused (failed e), s)

  abbrev pub cash_out_found : D → Option (X1000BetRow D) → S → Answer (Unit {0}) × S
  cash_out_found price none s = (refused bet_not_found, s)
  cash_out_found price (some found) s = cashed_out (take_out price found s)

  -- `cashOut` by a user, at the current price
  unfoldable pub cash_out : String → String → D → S → Answer (Unit {0}) × S
  cash_out user_id game_id price s = cash_out_found price (find_in_progress game_id (db.bets s)) s
