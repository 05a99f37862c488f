-- ===== src/Tests/X1000.antt =====
-- x1000 games on tables in memory.
use backend_showcase.Prelude.{
  true, false, none, some, List, [], ◌∷◌, map, ◌≡◌, ◌⊎◌, refl, arith, if◌then◌else◌, show_ℕ, length,
  str_eq,
}
use backend_showcase.Prelude.Int.{ℤ, pos}
use backend_showcase.Ledger.Result.{ok}
use backend_showcase.Ledger.GamesRewards.{GameState}
use backend_showcase.Games.Bet.{BetResult, FeeType}
use backend_showcase.Rounds.X1000.{
  X1000Row, X1000BetRow, X1000Tables, IsX1000Store, CreateBetParams, accepted, ChargeBet,
  find_x1000, add_bet, cash_out,
}
use backend_showcase.Rounds.X1000.Worker.{
  PayFee, on_asset_price_changed, game_asset, end_bet, end_game,
}
use backend_showcase.Rounds.X1000.Resolver.{found_pending, handle}
use backend_showcase.Rounds.X1000.Answers.{IsAnswered}
use backend_showcase.Rounds.X1000.Placed.{add_bet_lem}
use backend_showcase.Rounds.X1000.Single.{IsSingle}
use backend_showcase.Rounds.X1000.Steps.{
  perform_x1000, start, then_step, add, price_changed, ReachX1000-IsSingle,
}
use backend_showcase.Rounds.X1000.Limits.{all_inside, bets_in}
use backend_showcase.Rounds.X1000.Triggered.{IsEndedAt, IsLeft, on_asset_price_changed-all_inside}
use backend_showcase.Rounds.X1000.Ended.{cash_out-any_user}
use backend_showcase.Rounds.X1000.Ready.{all_closed, is_closed, found_ids}
use backend_showcase.Rounds.X1000.Closed.{handle-all_closed}
use backend_showcase.Tests.Whole.{whole, whole-IsExact}

pub record X1000Rows : Type 0 where
  pub games : List (X1000Row ℤ)
  pub bets : List (X1000BetRow ℤ)

abbrev store : X1000Tables X1000Rows ℤ
store = record {
  games = λ s. s.games;
  bets = λ s. s.bets;
  write_games = λ rows s. record s { games = rows };
  write_bets = λ rows s. record s { bets = rows };
  new_id = λ s. show_ℕ (length s.games);
}

store-IsX1000Store : IsX1000Store store
store-IsX1000Store = record {
  games-write_games = λ rows s. refl;
  bets-write_games = λ rows s. refl;
  games-write_bets = λ rows s. refl;
  bets-write_bets = λ rows s. refl;
}

abbrev charge_bet : ChargeBet X1000Rows ℤ
charge_bet user amount game_id bet_id s = (ok tt, s)

abbrev pay_fee : PayFee X1000Rows ℤ
pay_fee user amount game_id s = (ok tt, s)

abbrev params : CreateBetParams ℤ
params = record {
  user_id = "u";
  multiplier = pos 2;
  amount = pos 10;
  is_long = true;
  take_profit = some (pos 120);
  stop_loss = some (pos 90);
  fee_type = FeeType.pnl_fee;
}

abbrev game_in : GameState → X1000Row ℤ
game_in state = record {
  id = "g";
  owner_id = "u";
  state = state;
  start_price = some (pos 100);
  end_price = none;
}

abbrev bet_in : BetResult → X1000BetRow ℤ
bet_in result = record {
  game_id = "g";
  bet = record {
    id = "b";
    owner_id = "u";
    amount = pos 10;
    multiplier = pos 2;
    is_long = true;
    fee_type = FeeType.pnl_fee;
    fee = none;
  };
  result = result;
  start_price = pos 100;
  end_price = none;
  take_profit = some (pos 120);
  stop_loss = some (pos 90);
  burn_price = some (pos 50);
  roi = none;
  outcome = none;
  pnl = none;
}

abbrev empty_rows : X1000Rows
empty_rows = record { games = []; bets = [] }

abbrev running : X1000Rows
running = record {
  games = game_in GameState.in_progress ∷ [];
  bets = bet_in BetResult.in_progress ∷ [];
}

abbrev ended : X1000Rows
ended = record { games = game_in GameState.pending ∷ []; bets = bet_in BetResult.pending ∷ [] }

add_bet_lem_example :
    IsAnswered store
      (pos 1)
      charge_bet
      params
      (pos 100)
      empty_rows
      (add_bet store (pos 1) charge_bet params (pos 100) empty_rows)
add_bet_lem_example =
    add_bet_lem store store-IsX1000Store (pos 1) charge_bet pay_fee params (pos 100) empty_rows
      ((λ user amount game_id bet_id s. refl), (λ user amount game_id s. refl)) refl refl

no_bets-IsSingle : IsSingle store empty_rows
no_bets-IsSingle user = omega arith

ReachX1000-IsSingle_example : IsSingle store (
    perform_x1000 store (pos 1) (pos 1) (pos 1) charge_bet pay_fee (price_changed "BTC" (pos 120)) (
      perform_x1000 store
        (pos 1)
        (pos 1)
        (pos 1)
        charge_bet
        pay_fee
        (add params (pos 100))
        empty_rows))
ReachX1000-IsSingle_example =
    ReachX1000-IsSingle store store-IsX1000Store (pos 1) (pos 1) (pos 1) charge_bet pay_fee
      ((λ user amount game_id bet_id s. refl), (λ user amount game_id s. refl)) no_bets-IsSingle
      (then_step (then_step start (add params (pos 100))) (price_changed "BTC" (pos 120)))

on_asset_price_changed-all_inside_example :
    (all_inside whole-IsExact
        (pos 120)
        (on_asset_price_changed store game_asset (pos 120) running).bets
      ≡ true)
    × (((all_inside whole-IsExact (pos 120) (bets_in "g" running.bets) ≡ false)
          × IsEndedAt store
              (pos 120)
              "g"
              running
              (on_asset_price_changed store game_asset (pos 120) running))
        ⊎ ((all_inside whole-IsExact (pos 120) (bets_in "g" running.bets) ≡ true)
            × IsLeft store "g" running (on_asset_price_changed store game_asset (pos 120) running)))
on_asset_price_changed-all_inside_example =
    on_asset_price_changed-all_inside store store-IsX1000Store whole-IsExact (pos 120) "g" running

cash_out-any_user_example :
    (t : X1000Rows) × (cash_out store "stranger" "g" (pos 95) running ≡ (accepted tt, t))
    × (find_x1000 "g" t.games ≡ some (end_game (pos 95) (game_in GameState.in_progress)))
    × (t.bets
        ≡ map
            (λ (row : X1000BetRow ℤ). if str_eq row.bet.id "b" then end_bet (pos 95) row else row)
            running.bets)
cash_out-any_user_example =
    cash_out-any_user store store-IsX1000Store "stranger" "g" (pos 95)
      (bet_in BetResult.in_progress) (game_in GameState.in_progress) running refl refl

handle-all_closed_example :
    (all_closed (found_ids (found_pending store ended)) (handle store (pos 1) ended).games ≡ true)
    × ((is_closed "g" ended.games ≡ false)
        ⊎ (is_closed "g" (handle store (pos 1) ended).games ≡ true))
handle-all_closed_example = handle-all_closed store store-IsX1000Store (pos 1) "g" ended refl
