-- ===== src/Games/X1000.antt =====
-- libs/core/src/games-helpers/x1000.helpers.ts: `getX1000GameResult` and
-- `calculateX1000BetBurnPrice`.
pub mod Bounds
pub mod MadeUp
use backend_showcase.Prelude.{
  String, Bool, true, false, Option, none, some, List, [], ◌∷◌, if◌then◌else◌,
}
use backend_showcase.Decimal.{Decimal, greater_than, greater_than_or_equal_to}
use backend_showcase.Ledger.Result.{Result, ok, err, null_dereference}
use backend_showcase.Games.Bet.{BetResult, FeeType, pnl_fee, flat_fee}

-- The columns of `BetX1000` that are read.
pub record X1000Bet (D : Type 0) : Type 0 where
  pub id : String
  pub owner_id : String
  pub amount : D
  pub multiplier : D
  pub is_long : Bool
  pub fee_type : FeeType
  pub fee : Option D

pub record X1000Game (D : Type 0) : Type 0 where
  pub start_price : Option D
  pub end_price : Option D
  pub bets : List (X1000Bet D)

-- the resolved bet: the columns that are set, and the bet with the others
pub record ResolvedBet (D : Type 0) : Type 0 where
  pub bet : X1000Bet D
  pub roi : D
  pub result : BetResult
  pub outcome : D
  pub pnl : D
  pub fee : Option D

abbrev pub is_pnl_fee : FeeType → Bool
is_pnl_fee pnl_fee = true
is_pnl_fee flat_fee = false

module _ {D : Type 0} ⦃dec : Decimal D⦄ where
  -- `new Decimal(-100)`
  abbrev pub minus_hundred : D
  minus_hundred = dec.negated (dec.from_ℕ 100)

  -- the return on the bet in percent, which is not below -100
  unfoldable pub roi_of : X1000Bet D → D → D → D
  roi_of bet start_price end_price =
      let price_move = dec.div (dec.sub end_price start_price) start_price in
      let is_profit =
        if bet.is_long
        then greater_than_or_equal_to price_move (dec.from_ℕ 0)
        else dec.less_than_or_equal_to price_move (dec.from_ℕ 0) in
      let sign = if is_profit then dec.from_ℕ 1 else dec.negated (dec.from_ℕ 1) in
      let supposed =
        dec.mul (dec.mul (dec.abs (dec.mul price_move (dec.from_ℕ 100))) sign) bet.multiplier in
      if dec.less_than supposed minus_hundred then minus_hundred else supposed

  abbrev pub won_amount : X1000Bet D → D → D
  won_amount bet roi = dec.mul (dec.div roi (dec.from_ℕ 100)) bet.amount

  -- only a profit pays the fee
  unfoldable pub fee_of : X1000Bet D → D → D → D
  fee_of bet platform_fee roi =
      if greater_than roi (dec.from_ℕ 0)
      then if is_pnl_fee bet.fee_type
        then dec.mul (won_amount bet roi) platform_fee
        else dec.from_ℕ 0
      else dec.from_ℕ 0

  unfoldable pub resolve_priced : D → X1000Bet D → D → D → ResolvedBet D
  resolve_priced platform_fee bet start_price end_price =
      let roi = roi_of bet start_price end_price in
      let fee = fee_of bet platform_fee roi in
      let pnl = dec.sub (won_amount bet roi) fee in
      record {
        bet = bet;
        roi = roi;
        result = if dec.less_than pnl (dec.from_ℕ 0) then BetResult.loss else BetResult.won;
        outcome = dec.add pnl bet.amount;
        pnl = pnl;
        fee = if is_pnl_fee bet.fee_type then some fee else bet.fee;
      }

  unfoldable pub reject_unpriced : X1000Bet D → ResolvedBet D
  reject_unpriced bet = record {
    bet = bet;
    roi = dec.from_ℕ 0;
    result = BetResult.reject;
    outcome = dec.from_ℕ 0;
    pnl = dec.from_ℕ 0;
    fee = if is_pnl_fee bet.fee_type then some (dec.from_ℕ 0) else bet.fee;
  }

  unfoldable pub resolve_x1000 : D → X1000Bet D → Option D → Option D → ResolvedBet D
  resolve_x1000 platform_fee bet none end_price = reject_unpriced bet
  resolve_x1000 platform_fee bet (some start_price) none = reject_unpriced bet
  resolve_x1000 platform_fee bet (some start_price) (some end_price) =
      resolve_priced platform_fee bet start_price end_price

  -- Without a bet, reading `bet.feeType` throws.
  unfoldable pub get_x1000_game_result : X1000Game D → D → Result (ResolvedBet D)
  get_x1000_game_result game platform_fee = elim game.bets [
    | [] ↦ err null_dereference
    | bet ∷ bets ↦ ok (resolve_x1000 platform_fee bet game.start_price game.end_price)
  ]

  unfoldable pub calculate_x1000_bet_burn_price : D → Bool → D → D
  calculate_x1000_bet_burn_price start_price is_long multiplier =
      let sign = if is_long then dec.from_ℕ 1 else dec.negated (dec.from_ℕ 1) in
      let price_move = dec.div minus_hundred (dec.mul sign multiplier) in
      dec.mul start_price (dec.add (dec.div price_move (dec.from_ℕ 100)) (dec.from_ℕ 1))
