-- ===== src/Games/OneVsOne.antt =====
-- libs/core/src/games-helpers/one-vs-one.helper.ts: `getOneVsOneGameResults`. The bets that the
-- source changes in place are returned changed.
pub mod Conserved
pub mod Nearest
use backend_showcase.Prelude.{
  ℕ, Bool, true, false, ◌&&◌, Option, none, some, List, [], ◌∷◌, length, ◌==◌, if◌then◌else◌,
}
use backend_showcase.Decimal.{Decimal, greater_than}
use backend_showcase.Ledger.Result.{Result, ok, err, null_dereference}
use backend_showcase.Games.Bet.{GameBet, BetResult}

pub record OneVsOneGame (D : Type 0) : Type 0 where
  pub start_price : D
  pub end_price : Option D
  pub is_exact : Bool
  pub bets : List (GameBet D)

-- The rejected bet is `bets[0]`, which may be `undefined`.
pub record OneVsOneResults (D : Type 0) : Type 0 where
  pub winners : List (GameBet D)
  pub losers : List (GameBet D)
  pub rejects : List (Option (GameBet D))

-- a nullable flag as a condition
abbrev pub truthy : Option Bool → Bool
truthy none = false
truthy (some b) = b

module _ {D : Type 0} ⦃dec : Decimal D⦄ where
  unfoldable pub reject_bet : GameBet D → GameBet D
  reject_bet bet = record bet {
    result = BetResult.reject;
    fee = some (dec.from_ℕ 0);
    pnl = some (dec.from_ℕ 0);
    outcome = some (dec.from_ℕ 0);
  }

  abbrev first_rejected : List (GameBet D) → Option (GameBet D)
  first_rejected [] = none
  first_rejected (bet ∷ bets) = some (reject_bet bet)

  unfoldable pub win_bet : D → GameBet D → GameBet D → GameBet D
  win_bet platform_fee winner loser =
      let fee = dec.mul loser.amount platform_fee in
      let pnl = dec.sub loser.amount fee in
      record winner {
        result = BetResult.won;
        fee = some fee;
        pnl = some pnl;
        outcome = some (dec.add winner.amount pnl);
        multiplier = dec.to_number (dec.div pnl winner.amount);
      }

  unfoldable pub lose_bet : GameBet D → GameBet D
  lose_bet loser = record loser {
    result = BetResult.loss;
    fee = some (dec.from_ℕ 0);
    pnl = some (dec.negated loser.amount);
    outcome = some (dec.from_ℕ 0);
  }

  unfoldable pub decided : D → GameBet D → GameBet D → OneVsOneResults D
  decided platform_fee winner loser = record {
    winners = win_bet platform_fee winner loser ∷ [];
    losers = lose_bet loser ∷ [];
    rejects = [];
  }

  -- whether the first price is nearer to the end price than the second
  unfoldable pub is_nearer : D → D → D → Bool
  is_nearer end_price price1 price2 =
      dec.less_than (dec.abs (dec.sub price1 end_price)) (dec.abs (dec.sub price2 end_price))

  -- whether the first player wins; the prices are read with `!`
  unfoldable pub first_wins : OneVsOneGame D → D → GameBet D → GameBet D → Result Bool
  first_wins game end_price player1 player2 =
      if game.is_exact
      then elim player1.price [
        | none ↦ err null_dereference
        | some price1 ↦ elim player2.price [
          | none ↦ err null_dereference
          | some price2 ↦ ok (is_nearer end_price price1 price2)
        ]
      ]
      else ok (greater_than end_price game.start_price && truthy player1.is_up)

  unfoldable pub decided_by : D → GameBet D → GameBet D → Result Bool → Result (OneVsOneResults D)
  decided_by platform_fee player1 player2 (err e) = err e
  decided_by platform_fee player1 player2 (ok true) = ok (decided platform_fee player1 player2)
  decided_by platform_fee player1 player2 (ok false) = ok (decided platform_fee player2 player1)

  unfoldable pub rejected : List (GameBet D) → OneVsOneResults D
  rejected bets = record { winners = []; losers = []; rejects = first_rejected bets ∷ [] }

  unfoldable pub resolve_with :
      OneVsOneGame D → D → D → List (GameBet D) → Result (OneVsOneResults D)
  resolve_with game platform_fee end_price [] = err null_dereference
  resolve_with game platform_fee end_price (bet ∷ []) = ok (rejected (bet ∷ []))
  resolve_with game platform_fee end_price (player1 ∷ player2 ∷ more) =
      decided_by platform_fee player1 player2 (first_wins game end_price player1 player2)

  unfoldable pub resolve_at : OneVsOneGame D → D → Option D → Result (OneVsOneResults D)
  resolve_at game platform_fee none = ok (rejected game.bets)
  resolve_at game platform_fee (some end_price) = resolve_with game platform_fee end_price game.bets

  unfoldable pub get_one_vs_one_game_results : OneVsOneGame D → D → Result (OneVsOneResults D)
  get_one_vs_one_game_results game platform_fee = resolve_at game platform_fee game.end_price
