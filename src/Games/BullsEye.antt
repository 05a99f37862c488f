-- ===== src/Games/BullsEye.antt =====
-- apps/bulls-eye-worker/src/modules/games-finalizer/getBullsEyeGameResult.helper.ts. The bets that the
-- source changes in place are returned changed.
pub mod Prizes
use backend_showcase.Prelude.{
  ℕ, suc, ◌+◌, String, Bool, true, false, Option, none, some, List, [], ◌∷◌, map, length, ltb, leb,
  if◌then◌else◌,
}
use backend_showcase.Decimal.{Decimal}
use backend_showcase.Decimal.Sum.{total}
use backend_showcase.Ledger.Result.{Result, ok, err, null_dereference}
use backend_showcase.Games.Bet.{GameBet, BetResult, Results}
use backend_showcase.Games.OneVsOne.{lose_bet}
use backend_showcase.Games.UpDown.{amount_of}

-- `WinnerCoefficients`, with those of two participants
pub record WinnerCoefficients (D : Type 0) : Type 0 where
  pub first_place : D
  pub second_place : D
  pub third_place : D
  pub first_of_two : D
  pub second_of_two : D

-- `GetBullsEyeGameResultsParams`
pub record BullsEyeGame (D : Type 0) : Type 0 where
  pub bets : List (GameBet D)
  pub end_price : Option D
  pub accuracy_level : D
  pub platform_fee : D
  pub exact_winner_coefficients : WinnerCoefficients D
  pub default_winner_coefficients : WinnerCoefficients D

-- `sort`, which is stable: an element goes before those that it is strictly before.
unfoldable pub insert_by : {A : Type 0} → (A → A → Bool) → A → List A → List A
insert_by before x [] = x ∷ []
insert_by before x (y ∷ ys) =
    let rest = insert_by before x ys in if before y x then y ∷ rest else x ∷ y ∷ ys

unfoldable pub sort_by : {A : Type 0} → (A → A → Bool) → List A → List A
unfolding insert_by
sort_by before [] = []
sort_by before (x ∷ xs) = insert_by before x (sort_by before xs)

-- a bet with its price
abbrev pub Priced : Type 0 → Type 0
Priced D = D × GameBet D

module _ {D : Type 0} where
  abbrev pub is_earlier : Priced D → Priced D → Bool
  is_earlier a b = ltb a.1.created_at b.1.created_at

  abbrev pub attach : GameBet D → Option D → Result (List (Priced D)) → Result (List (Priced D))
  attach bet none rest = err null_dereference
  attach bet (some price) (err e) = err e
  attach bet (some price) (ok priced) = ok ((price, bet) ∷ priced)

  -- The prices, without which decimal.js throws at the first comparison.
  unfoldable pub with_prices : List (GameBet D) → Result (List (Priced D))
  with_prices [] = ok []
  with_prices (b ∷ bets) = attach b b.price (with_prices bets)

module _ {D : Type 0} ⦃dec : Decimal D⦄ where
  abbrev pub distance : D → D → D
  distance end_price price = dec.abs (dec.sub end_price price)

  -- whether `Number(…)` of the difference of the distances is negative
  abbrev pub is_closer : D → Priced D → Priced D → Bool
  is_closer end_price a b =
      dec.less_than (dec.to_number (dec.sub (distance end_price a.0) (distance end_price b.0)))
        (dec.from_ℕ 0)

  -- `findBullsEyeGameWinner`: by time, and then by distance
  unfoldable pub find_bulls_eye_game_winner : D → List (Priced D) → List (Priced D)
  find_bulls_eye_game_winner end_price bets =
      sort_by (is_closer end_price) (sort_by is_earlier bets)

  unfoldable pub is_exact_price : D → D → D → Bool
  is_exact_price price end_price accuracy_level =
      dec.less_than
        (dec.abs (
          dec.sub (dec.mul (dec.div (dec.abs end_price) (dec.abs price)) (dec.from_ℕ 100))
            (dec.from_ℕ 100)))
        accuracy_level

  -- a winner with its prize
  unfoldable pub award : D → D → Bool → ℕ → D → GameBet D → GameBet D
  award end_price platform_fee is_exact place prize bet =
      let fee = dec.mul prize platform_fee in
      let pnl = dec.sub (dec.sub prize bet.amount) fee in
      record bet {
        result = BetResult.won;
        price_result = some end_price;
        fee = some fee;
        pnl = some pnl;
        is_exact = is_exact;
        outcome = some (dec.sub prize fee);
        place = some place;
        multiplier = dec.to_number (dec.div pnl bet.amount);
      }

  unfoldable pub miss : D → ℕ → GameBet D → GameBet D
  miss end_price place bet = record (lose_bet bet) {
    price_result = some end_price;
    is_exact = false;
    place = some place;
  }

  -- the loop over the losers, whose places start with 4
  unfoldable pub miss_from : D → ℕ → List (Priced D) → List (GameBet D)
  miss_from end_price place [] = []
  miss_from end_price place ((price, b) ∷ losers) =
      miss end_price place b ∷ miss_from end_price (suc place) losers

  unfoldable pub reject_bullseye_bet : GameBet D → GameBet D
  reject_bullseye_bet bet = record bet {
    result = BetResult.reject;
    price_result = none;
    fee = some (dec.from_ℕ 0);
    pnl = some (dec.from_ℕ 0);
    is_exact = false;
    outcome = some (dec.from_ℕ 0);
  }

  abbrev pub coefficients : BullsEyeGame D → Bool → WinnerCoefficients D
  coefficients game is_exact =
      if is_exact then game.exact_winner_coefficients else game.default_winner_coefficients

  -- The bets in the order of their places; there are at least two.
  unfoldable pub award_places : BullsEyeGame D → D → D → List (Priced D) → Results D
  award_places game end_price pool [] = record { winners = []; losers = []; rejects = [] }
  award_places game end_price pool ((price, first) ∷ []) =
      let is_exact = is_exact_price price end_price game.accuracy_level in
      let c = coefficients game is_exact in
      record {
        winners =
            award end_price game.platform_fee is_exact 1 (dec.mul pool c.first_of_two) first ∷ [];
        losers = [];
        rejects = [];
      }
  award_places game end_price pool ((price, first) ∷ (p2, second) ∷ []) =
      let is_exact = is_exact_price price end_price game.accuracy_level in
      let c = coefficients game is_exact in
      record {
        winners =
            award end_price game.platform_fee is_exact 1 (dec.mul pool c.first_of_two) first
            ∷ award end_price game.platform_fee false 2 (dec.mul pool c.second_of_two) second
            ∷ [];
        losers = [];
        rejects = [];
      }
  award_places game end_price pool ((price, first) ∷ (p2, second) ∷ (p3, third) ∷ losers) =
      let is_exact = is_exact_price price end_price game.accuracy_level in
      let c = coefficients game is_exact in
      record {
        winners =
            award end_price game.platform_fee is_exact 1 (dec.mul pool c.first_place) first
            ∷ award end_price game.platform_fee false 2 (dec.mul pool c.second_place) second
            ∷ award end_price game.platform_fee false 3 (dec.mul pool c.third_place) third
            ∷ [];
        losers = miss_from end_price 4 losers;
        rejects = [];
      }

  unfoldable pub reject_bullseye : List (GameBet D) → Results D
  reject_bullseye bets = record {
    winners = [];
    losers = [];
    rejects = map reject_bullseye_bet bets;
  }

  unfoldable pub award_priced : BullsEyeGame D → D → Result (List (Priced D)) → Result (Results D)
  award_priced game end_price (err e) = err e
  award_priced game end_price (ok priced) = ok (
      award_places game end_price (total (map amount_of game.bets))
        (find_bulls_eye_game_winner end_price priced))

  unfoldable pub resolve_bullseye : BullsEyeGame D → Option D → Result (Results D)
  resolve_bullseye game none = ok (reject_bullseye game.bets)
  resolve_bullseye game (some end_price) =
      if ltb (length game.bets) 2
      then ok (reject_bullseye game.bets)
      else award_priced game end_price (with_prices game.bets)

  unfoldable pub get_bulls_eye_game_result : BullsEyeGame D → Result (Results D)
  get_bulls_eye_game_result game = resolve_bullseye game game.end_price
