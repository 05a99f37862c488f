-- ===== src/Games/UpDown.antt =====
-- apps/up-down-worker/src/modules/games-finalizer/getUpDownGameResult.helper.ts
pub mod Conserved
pub mod Partition
use backend_showcase.Prelude.{
  Bool, true, false, not, ◌||◌, Option, none, some, List, [], ◌∷◌, map, filter, every,
  if◌then◌else◌,
}
use backend_showcase.Decimal.{Decimal}
use backend_showcase.Decimal.Sum.{total}
use backend_showcase.Games.Bet.{GameBet, BetResult, Results}
use backend_showcase.Games.OneVsOne.{truthy, reject_bet, lose_bet}

pub record UpDownGame (D : Type 0) : Type 0 where
  pub start_price : Option D
  pub end_price : Option D
  pub is_up : Option Bool
  pub bets : List (GameBet D)

-- `a === b` on nullable flags
abbrev pub same_flag : Option Bool → Option Bool → Bool
same_flag none none = true
same_flag none (some b) = false
same_flag (some a) none = false
same_flag (some true) (some b) = b
same_flag (some false) (some b) = not b

-- `bets.every((bet, _, array) => bet.isUp === array[0].isUp)`
abbrev pub all_same_side : {D : Type 0} → List (GameBet D) → Bool
all_same_side [] = true
all_same_side (b ∷ bets) = every (λ c. same_flag c.is_up b.is_up) (b ∷ bets)

module _ {D : Type 0} where
  abbrev pub amount_of : GameBet D → D
  amount_of b = b.amount

  abbrev pub bets_up : List (GameBet D) → List (GameBet D)
  bets_up bets = filter (λ b. truthy b.is_up) bets

  abbrev pub bets_down : List (GameBet D) → List (GameBet D)
  bets_down bets = filter (λ b. not (truthy b.is_up)) bets

module _ {D : Type 0} ⦃dec : Decimal D⦄ where
  -- the share of a winner in the pool of the losers, and what is left of it
  unfoldable pub win_share : D → D → D → GameBet D → GameBet D
  win_share platform_fee winner_pool lost_pool winner =
      let percent = dec.div winner.amount winner_pool in
      let win_amount = dec.mul lost_pool percent in
      let fee = dec.mul win_amount platform_fee in
      let pnl = dec.sub win_amount fee in
      record winner {
        result = BetResult.won;
        fee = some fee;
        pnl = some pnl;
        outcome = some (dec.add winner.amount pnl);
        multiplier = dec.to_number (dec.div pnl winner.amount);
      }

  -- The two sides: the loop adds each bet to its pool, and to the winners or the losers.
  unfoldable pub split_pools : D → List (GameBet D) → List (GameBet D) → Results D
  split_pools platform_fee winning losing = record {
    winners =
        map (win_share platform_fee (total (map amount_of winning)) (total (map amount_of losing)))
          winning;
    losers = map lose_bet losing;
    rejects = [];
  }

  unfoldable pub reject_all : List (GameBet D) → Results D
  reject_all bets = record { winners = []; losers = []; rejects = map reject_bet bets }

  -- whether the bets are all given back although both prices are known
  unfoldable pub is_void : D → D → List (GameBet D) → Bool
  is_void start_price end_price bets = dec.equals end_price start_price || all_same_side bets

  unfoldable pub split_sides : D → UpDownGame D → Results D
  split_sides platform_fee game =
      if truthy game.is_up
      then split_pools platform_fee (bets_up game.bets) (bets_down game.bets)
      else split_pools platform_fee (bets_down game.bets) (bets_up game.bets)

  unfoldable pub resolve_prices : UpDownGame D → D → Option D → Option D → Results D
  resolve_prices game platform_fee none start_price = reject_all game.bets
  resolve_prices game platform_fee (some end_price) none = reject_all game.bets
  resolve_prices game platform_fee (some end_price) (some start_price) =
      if is_void start_price end_price game.bets
      then reject_all game.bets
      else split_sides platform_fee game

  unfoldable pub get_up_down_game_results : UpDownGame D → D → Results D
  get_up_down_game_results game platform_fee =
      resolve_prices game platform_fee game.end_price game.start_price
