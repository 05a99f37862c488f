-- ===== src/Games/Setup.antt =====
-- apps/setups-worker/src/modules/games-finalizer/getSetupGameResult.helper.ts. The bets that the
-- source changes in place are returned changed.
pub mod Direction
pub mod Conserved
use backend_showcase.Prelude.{
  String, Bool, true, false, not, ◌&&◌, ◌||◌, Option, none, some, List, [], map, filter,
  if◌then◌else◌,
}
use backend_showcase.Decimal.{Decimal, greater_than, greater_than_or_equal_to}
use backend_showcase.Decimal.Sum.{total}
use backend_showcase.Games.Bet.{GameBet, BetResult}
use backend_showcase.Games.OneVsOne.{reject_bet, lose_bet}
use backend_showcase.Games.UpDown.{
  same_flag, all_same_side, amount_of, bets_up, bets_down, win_share,
}

-- `GetSetupGameResultParams`
pub record SetupGame (D : Type 0) : Type 0 where
  pub owner_id : String
  pub id : String
  pub end_price : Option D
  pub take_profit : D
  pub stop_loss : D
  pub platform_fee : D
  pub bets : List (GameBet D)
  pub is_long : Bool

-- `GameSetupResultEnum`
pub data SetupResult : Type 0 where
  rejected took_profit lost_stop : SetupResult

-- the bet that is made up for the owner of the setup
pub record Influencer (D : Type 0) : Type 0 where
  pub owner_id : String
  pub amount : D
  pub outcome : D
  pub pnl : D
  pub fee : D
  pub game_id : String

pub record SetupResults (D : Type 0) : Type 0 where
  pub winners : List (GameBet D)
  pub losers : List (GameBet D)
  pub result : SetupResult
  pub rejects : List (GameBet D)
  pub influencer : Influencer D

module _ {D : Type 0} where
  -- `resultPriceDirection === bet.isUp`
  abbrev pub is_winner : Bool → GameBet D → Bool
  is_winner direction b = same_flag (some direction) b.is_up

  abbrev pub winning_side : Bool → List (GameBet D) → List (GameBet D)
  winning_side direction bets = filter (is_winner direction) bets

  abbrev pub losing_side : Bool → List (GameBet D) → List (GameBet D)
  losing_side direction bets = filter (λ b. not (is_winner direction b)) bets

module _ {D : Type 0} ⦃dec : Decimal D⦄ where
  -- `rejectBet`, and the body of the loop over the losers
  unfoldable pub reject_setup_bet : GameBet D → GameBet D
  reject_setup_bet bet = record (reject_bet bet) { multiplier = dec.from_ℕ 0 }

  unfoldable pub lose_setup_bet : GameBet D → GameBet D
  lose_setup_bet bet = record (lose_bet bet) { multiplier = dec.from_ℕ 0 }

  unfoldable pub get_price_direction_result : Bool → D → D → D → Bool
  get_price_direction_result is_long end_price take_profit stop_loss =
      (is_long && dec.less_than_or_equal_to take_profit end_price)
      || (not is_long && greater_than_or_equal_to stop_loss end_price)

  unfoldable pub is_between : Bool → D → D → D → Bool
  is_between is_long end_price take_profit stop_loss =
      if is_long
      then dec.less_than end_price take_profit && greater_than end_price stop_loss
      else greater_than end_price take_profit && dec.less_than end_price stop_loss

  unfoldable pub is_game_rejected : SetupGame D → D → Bool
  is_game_rejected game end_price =
      all_same_side game.bets || is_between game.is_long end_price game.take_profit game.stop_loss

  abbrev influencer_with : SetupGame D → D → Influencer D
  influencer_with game outcome = record {
    owner_id = game.owner_id;
    amount = dec.from_ℕ 0;
    outcome = outcome;
    pnl = outcome;
    fee = dec.from_ℕ 0;
    game_id = game.id;
  }

  unfoldable pub rejected_setup : SetupGame D → SetupResults D
  rejected_setup game = record {
    winners = [];
    losers = [];
    result = SetupResult.rejected;
    rejects = map reject_setup_bet game.bets;
    influencer = influencer_with game (dec.from_ℕ 0);
  }

  -- the pools are told by `if (bet.isUp)`, the winners by `===`
  abbrev pub winner_pool : Bool → List (GameBet D) → D
  winner_pool direction bets =
      total (map amount_of (if direction then bets_up bets else bets_down bets))

  abbrev pub loser_pool : Bool → List (GameBet D) → D
  loser_pool direction bets =
      total (map amount_of (if direction then bets_down bets else bets_up bets))

  abbrev pub influencer_fee : SetupGame D → Bool → D
  influencer_fee game direction = dec.mul (loser_pool direction game.bets) game.platform_fee

  -- what the winners share: the losers' pool without the fee of the influencer
  abbrev pub shared_pool : SetupGame D → Bool → D
  shared_pool game direction =
      dec.sub (loser_pool direction game.bets) (influencer_fee game direction)

  unfoldable pub split_setup : SetupGame D → Bool → SetupResults D
  split_setup game direction = record {
    winners =
        map
          (win_share game.platform_fee (winner_pool direction game.bets)
            (shared_pool game direction))
          (winning_side direction game.bets);
    losers = map lose_setup_bet (losing_side direction game.bets);
    result = if direction then SetupResult.took_profit else SetupResult.lost_stop;
    rejects = [];
    influencer = influencer_with game (influencer_fee game direction);
  }

  unfoldable pub resolve_setup : SetupGame D → Option D → SetupResults D
  resolve_setup game none = rejected_setup game
  resolve_setup game (some end_price) =
      if is_game_rejected game end_price
      then rejected_setup game
      else split_setup game
          (get_price_direction_result game.is_long end_price game.take_profit game.stop_loss)

  unfoldable pub get_setup_game_result : SetupGame D → SetupResults D
  get_setup_game_result game = resolve_setup game game.end_price
