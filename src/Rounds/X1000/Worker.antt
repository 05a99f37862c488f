-- ===== src/Rounds/X1000/Worker.antt =====
-- apps/x1000-worker/src/module/game/workers: x1000Prices.worker.ts, and x1000HourlyComission.worker.ts
-- with the jobs that it schedules. The events that it publishes are left out.
use backend_showcase.Prelude.{
  String, Bool, true, false, not, ◌&&◌, ◌||◌, Option, none, some, List, [], ◌∷◌, map, filter,
  if◌then◌else◌, str_eq,
}
use backend_showcase.Decimal.{Decimal, greater_than_or_equal_to}
use backend_showcase.Ledger.Result.{Result, ok, err}
use backend_showcase.Ledger.Action.{Action, in_transaction}
use backend_showcase.Ledger.GamesRewards.{GameState}
use backend_showcase.Games.Bet.{BetResult}
use backend_showcase.Rounds.Tables.{is_listed}
use backend_showcase.Rounds.X1000.{
  X1000Row, X1000BetRow, X1000Tables, is_in_progress, find_in_progress, update_x1000_game,
}

module _ {D : Type 0} ⦃dec : Decimal D⦄ where
  -- `lte` and `gte` of a column, which no price meets if it is null
  unfoldable pub is_at_most : Option D → D → Bool
  is_at_most none price = false
  is_at_most (some x) price = dec.less_than_or_equal_to x price

  unfoldable pub is_at_least : Option D → D → Bool
  is_at_least none price = false
  is_at_least (some x) price = greater_than_or_equal_to x price

  unfoldable pub leaves_range : D → X1000BetRow D → Bool
  leaves_range price row =
      if row.bet.is_long
      then is_at_most row.take_profit price || is_at_least row.stop_loss price
      else is_at_least row.take_profit price || is_at_most row.stop_loss price

  unfoldable pub is_burned : D → X1000BetRow D → Bool
  is_burned price row =
      if row.bet.is_long then is_at_least row.burn_price price else is_at_most row.burn_price price

  -- the `where` of `onAssetPriceChanged`
  unfoldable pub is_triggered : D → X1000BetRow D → Bool
  is_triggered price row =
      is_in_progress row.result && (leaves_range price row || is_burned price row)

  abbrev pub end_bet : D → X1000BetRow D → X1000BetRow D
  end_bet price row = record row { result = BetResult.pending; end_price = some price }

  abbrev pub end_game : D → X1000Row D → X1000Row D
  end_game price g = record g { state = GameState.pending; end_price = some price }

  abbrev pub games_of : List (X1000BetRow D) → List String
  games_of rows = map (λ (row : X1000BetRow D). row.game_id) rows

  -- both `updateMany`
  abbrev pub end_bets : D → List String → List (X1000BetRow D) → List (X1000BetRow D)
  end_bets price ids rows =
      map (λ (row : X1000BetRow D). if is_listed row.game_id ids then end_bet price row else row)
        rows

  abbrev pub end_games : D → List String → List (X1000Row D) → List (X1000Row D)
  end_games price ids rows =
      map (λ (g : X1000Row D). if is_listed g.id ids then end_game price g else g) rows

-- `X1000_GAME_ASSET`
abbrev pub game_asset : String
game_asset = "BTC"

module _ {S D : Type 0} ⦃dec : Decimal D⦄ (db : X1000Tables S D) where
  abbrev pub end_triggered : D → List String → S → S
  end_triggered price [] s = s
  end_triggered price (id ∷ ids) s =
      let s1 = db.write_bets (end_bets price (id ∷ ids) (db.bets s)) s in
      db.write_games (end_games price (id ∷ ids) (db.games s1)) s1

  -- `onAssetPriceChanged`, when no other price is handled
  unfoldable pub on_asset_price_changed : String → D → S → S
  on_asset_price_changed asset_id price s =
      if str_eq asset_id game_asset
      then end_triggered price (games_of (filter (is_triggered price) (db.bets s))) s
      else s

-- the jobs of the hourly fee: after eight hours, and then every hour
pub data HourlyJob : Type 0 where
  after_free_hours each_hour : String → HourlyJob

abbrev pub is_free_job_of : String → HourlyJob → Bool
is_free_job_of id (after_free_hours game_id) = str_eq game_id id
is_free_job_of id (each_hour game_id) = false

abbrev pub is_hourly_job_of : String → HourlyJob → Bool
is_hourly_job_of id (after_free_hours game_id) = false
is_hourly_job_of id (each_hour game_id) = str_eq game_id id

-- A job takes the place of the one with its name.
unfoldable pub regist_game : String → List HourlyJob → List HourlyJob
regist_game id jobs = after_free_hours id ∷ filter (λ j. not (is_free_job_of id j)) jobs

unfoldable pub unregist_game : String → List HourlyJob → List HourlyJob
unregist_game id jobs = filter (λ j. not (is_free_job_of id j || is_hourly_job_of id j)) jobs

unfoldable pub on_eight_hours_have_passed : String → List HourlyJob → List HourlyJob
on_eight_hours_have_passed id jobs = each_hour id ∷ filter (λ j. not (is_hourly_job_of id j)) jobs

-- `X1000GameObserver`
unfoldable pub on_state : String → GameState → List HourlyJob → List HourlyJob
on_state id GameState.in_progress jobs = regist_game id jobs
on_state id GameState.pending jobs = unregist_game id jobs
on_state id _ jobs = jobs

-- `payBetFee` of the ledger: user, amount and game
abbrev pub PayFee : Type 0 → Type 0 → Type 0
PayFee S D = String → D → String → Action S (Unit {0})

-- the database and the jobs, and whether the callback is to be repeated
pub record Hourly (S : Type 0) : Type 0 where
  pub tables : S
  pub jobs : List HourlyJob
  pub is_repeated : Bool

module _ {D : Type 0} where
  -- the bets of a cancelled game
  abbrev pub cancel_bets : String → List (X1000BetRow D) → List (X1000BetRow D)
  cancel_bets game_id rows =
      map
        (λ (row : X1000BetRow D).
          if str_eq row.game_id game_id then record row { result = BetResult.pending } else row)
        rows

module _ {S D : Type 0} (db : X1000Tables S D) where
  -- A fee that cannot be paid ends the game, without an end price.
  unfoldable pub cancel : String → Action S (Unit {0})
  cancel game_id = in_transaction (λ s.
      update_x1000_game db game_id (λ g. record g { state = GameState.pending })
        (db.write_bets (cancel_bets game_id (db.bets s)) s))

  abbrev pub after_cancel : String → List HourlyJob → Result (Unit {0}) × S → Hourly S
  after_cancel game_id jobs (ok done, s) = record {
    tables = s;
    jobs = unregist_game game_id jobs;
    is_repeated = false;
  }
  after_cancel game_id jobs (err e, s) = record { tables = s; jobs = jobs; is_repeated = true }

  abbrev pub after_fee : String → List HourlyJob → Result (Unit {0}) × S → Hourly S
  after_fee game_id jobs (ok done, s) = record { tables = s; jobs = jobs; is_repeated = false }
  after_fee game_id jobs (err e, s) = after_cancel game_id jobs (cancel game_id s)

module _ {S D : Type 0} ⦃dec : Decimal D⦄ (db : X1000Tables S D) (hourly_fee : D)
    (pay_fee : PayFee S D) where
  abbrev pub take_commission_of : String → List HourlyJob → Option (X1000BetRow D) → S → Hourly S
  take_commission_of game_id jobs none s = record {
    tables = s;
    jobs = unregist_game game_id jobs;
    is_repeated = false;
  }
  take_commission_of game_id jobs (some row) s =
      after_fee db game_id jobs (
        in_transaction (pay_fee row.bet.owner_id (dec.mul row.bet.amount hourly_fee) row.game_id) s)

  -- `takeCommissionFromBet`
  unfoldable pub take_commission_from_bet : String → List HourlyJob → S → Hourly S
  take_commission_from_bet game_id jobs s =
      take_commission_of game_id jobs (find_in_progress game_id (db.bets s)) s
